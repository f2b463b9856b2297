-- ===== src/Staking/Principal.antt =====
-- What a signed block does with the coin that it stakes.
