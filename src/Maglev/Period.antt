-- ===== src/Maglev/Period.antt =====
-- The `while` loop of GenerateMaglevHash (katran/lib/CHHelpers.cpp): its walk, on 32-bit numbers, comes
-- round after 2 ^ 32 steps.
