-- ===== src/Legacy/Script.antt =====
-- scripts/script.js: the recognisers of the wallet's scripts.
pub mod Op
use organic_web_wallet.Prelude.{
  ℕ, Bool, false, ◌&&◌, ◌||◌, none, some, [], ◌∷◌, length, get_elem?, leb, ◌==◌,
}
use organic_web_wallet.Platform.{Bytes}
use organic_web_wallet.Legacy.Script.Op

-- The data of a burn, as UTF-8; the length is pushed as one element, whatever it is.
unfoldable pub get_script_for_burn : Bytes → Bytes
get_script_for_burn [] = Op.return ∷ []
get_script_for_burn (b ∷ bs) = Op.return ∷ Op.pushdata1 ∷ length (b ∷ bs) ∷ b ∷ bs

-- `dataBytes[i] === op`
unfoldable pub is_at : Bytes → ℕ → ℕ → Bool
is_at script i op = elim (get_elem? script i) [ some b ↦ b == op | none ↦ false ]

unfoldable pub is_p2pkh : Bytes → Bool
is_p2pkh script =
    leb 25 (length script)
    && (is_at script 0 Op.dup
        && (is_at script 1 Op.hash160
            && (is_at script 2 0x14
                && (is_at script 23 Op.equalverify && is_at script 24 Op.checksig))))

unfoldable pub is_p2cs : Bytes → Bool
is_p2cs script =
    leb 51 (length script)
    && (is_at script 0 Op.dup
        && (is_at script 1 Op.hash160
            && (is_at script 2 Op.rot
                && (is_at script 3 Op.if_op
                    && ((is_at script 4 Op.checkcoldstakeverify
                          || is_at script 4 Op.checkcoldstakeverify_lof)
                        && (is_at script 5 0x14
                            && (is_at script 26 Op.else_op
                                && (is_at script 27 0x14
                                    && (is_at script 48 Op.endif
                                        && (is_at script 49 Op.equalverify
                                            && is_at script 50 Op.checksig))))))))))

unfoldable pub is_p2exc : Bytes → Bool
is_p2exc script =
    leb 26 (length script)
    && (is_at script 0 Op.exchangeaddr
        && (is_at script 1 Op.dup
            && (is_at script 2 Op.hash160
                && (is_at script 3 0x14
                    && (is_at script 24 Op.equalverify && is_at script 25 Op.checksig)))))

unfoldable pub is_proposal_fee : Bytes → Bool
is_proposal_fee script = length script == 34 && (is_at script 0 Op.return && is_at script 1 32)
