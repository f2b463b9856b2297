-- ===== src/Legacy/Script/Op.antt =====
-- The operations of scripts/script.js that the wallet's scripts consist of.
use organic_web_wallet.Prelude.{ℕ}

abbrev pub pushdata1 : ℕ
pushdata1 = 0x4c

abbrev pub if_op : ℕ
if_op = 0x63

abbrev pub else_op : ℕ
else_op = 0x67

abbrev pub endif : ℕ
endif = 0x68

abbrev pub return : ℕ
return = 0x6a

abbrev pub dup : ℕ
dup = 0x76

abbrev pub rot : ℕ
rot = 0x7b

abbrev pub equalverify : ℕ
equalverify = 0x88

abbrev pub hash160 : ℕ
hash160 = 0xa9

abbrev pub checksig : ℕ
checksig = 0xac

abbrev pub checkcoldstakeverify_lof : ℕ
checkcoldstakeverify_lof = 0xd1

abbrev pub checkcoldstakeverify : ℕ
checkcoldstakeverify = 0xd2

abbrev pub exchangeaddr : ℕ
exchangeaddr = 0xe0
