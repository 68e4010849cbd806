-- ===== src/Examples/Numbers.antt =====
-- Scalars and status lists at concrete values.
use kessa.Base.{◌≡◌, refl, codes, false, [], ◌∷◌, ok, arith}
use kessa.Base.Int.{pos}
use kessa.Scalar
use kessa.Scalar.{Value, instant, number, compare, satisfies, le, cmp_int64_float, cmp_whole}
use kessa.Scalar.Order.{InRange, compare_exact, cmp_ranks, rank}
use kessa.Platform.Float.{plus_inf}
use kessa.Status
use kessa.Status.{
  StatusList, new_list, bit_len, set_bit, lookup, sign, verify, signing_input, min_bits,
}

five_InRange : InRange (instant (pos 5))
unfolding Scalar.min_unix_nano Scalar.max_unix_nano
five_InRange = (ground arith, ground arith)

compare_exact_example :
    compare (instant (pos 5)) (number plus_inf)
    ≡ cmp_ranks (rank (instant (pos 5))) (rank (number plus_inf))
compare_exact_example = compare_exact (instant (pos 5)) (number plus_inf) five_InRange tt

abbrev two_bytes : StatusList
two_bytes = record {
  issuer = [];
  purpose = codes "revocation";
  bits = 0 ∷ 255 ∷ [];
  signature = [];
}

abbrev ninth_cleared : StatusList
ninth_cleared = record {
  issuer = [];
  purpose = codes "revocation";
  bits = 0 ∷ 127 ∷ [];
  signature = [];
}

cleared_lem : set_bit two_bytes (pos 8) false ≡ ok ninth_cleared
unfolding set_bit bit_len Status.write_bit Status.mask
cleared_lem = refl
