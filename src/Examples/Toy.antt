-- ===== src/Examples/Toy.antt =====
-- Concrete functions in place of the packages: a printer of values and a digest by a checksum.
use capsules_protocol.Json.{
  Num, integral, Value, null, bool, num, str, arr, obj, Items, nil, cons, Fields, end, field,
}
use capsules_protocol.Bytes.{Bytes}
use capsules_protocol.Platform.{Platform, IsDigest}
use capsules_protocol.Chain.{zeros}
use capsules_protocol.Versions.Numeral.{decimal}
use capsules_protocol.Prelude.{
  if◌then◌else◌, Str, codes, str_eq, ℕ, ◌+◌, ◌*◌, ◌%◌, refl, some, [], ◌∷◌, ◌++◌, arith,
}

abbrev print_num : Num → Str
print_num (integral s m) = decimal m
print_num n = codes "null"

unfoldable mutual
  pub print : Value → Str
  print null = codes "null"
  print (bool b) = if b then codes "true" else codes "false"
  print (num n) = print_num n
  print (str s) = b'"' ∷ (s ++ b'"' ∷ [])
  print (arr xs) = b'[' ∷ (print_items xs ++ b']' ∷ [])
  print (obj o) = b'{' ∷ (print_fields o ++ b'}' ∷ [])

  pub print_items : Items → Str
  print_items nil = []
  print_items (cons v xs) = print v ++ b',' ∷ print_items xs

  pub print_fields : Fields → Str
  print_fields end = []
  print_fields (field k v o) = k ++ b':' ∷ (print v ++ b',' ∷ print_fields o)

unfoldable pub checksum : ℕ → Bytes → ℕ
checksum n [] = n
checksum n (b ∷ m) = checksum ((n * 31 + b + 1) % 256) m

unfoldable pub toy_digest : Bytes → Bytes
unfolding checksum
toy_digest m = checksum 0 m % 256 ∷ zeros 31

abbrev pub toy : Platform
toy = record {
  canonicalize = λ v. some (print v);
  sha256 = toy_digest;
  ed25519_verify =
      λ key message signature. str_eq signature (toy_digest (key ++ message) ++ zeros 32);
  ed25519_sign = λ seed message. toy_digest (seed ++ message) ++ zeros 32;
  number_text = print_num;
}

pub toy-IsDigest : IsDigest toy
unfolding toy_digest
toy-IsDigest = record { size = λ m. refl; bytes = λ m. omega arith }
