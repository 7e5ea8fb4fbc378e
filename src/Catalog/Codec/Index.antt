-- ===== src/Catalog/Codec/Index.antt =====
-- The table-name index is read back in the order it was written.
use choam.Base.{
  ℕ, suc, ◌%◌, ◌^◌, ◌+◌, ◌<◌, ◌≡◌, refl, List, [], ◌∷◌, ◌++◌, Bytes, ok, length, arith,
  append_assoc, append-nil, length-append, take-append, drop-append, All, le→ltb,
}
use choam.Base.Endian.{le_bytes, from_le_bytes, length-le_bytes, from_le_bytes-le_bytes}
use choam.Catalog.Codec.{
  write_string, write_names, encode_table_index, read_names, decode_table_index,
}
use choam.Catalog.Codec.RoundTrip.{IsName, string_bytes, read-string_bytes}

name_bytes : List Bytes → Bytes
name_bytes [] = []
name_bytes (n ∷ ns) = string_bytes n ++ name_bytes ns

write_names-append : (out : Bytes) (ns : List Bytes) → write_names out ns ≡ out ++ name_bytes ns
unfolding write_names string_bytes name_bytes
write_names-append out [] = rw append-nil
write_names-append out (n ∷ ns) =
    rw (write_names-append (write_string out n) ns) (simp append_assoc)

read_names_step :
    (n : Bytes) (k : ℕ) (rest : Bytes) {ns : List Bytes}
    → IsName n
    → read_names k rest ≡ ok ns
    → read_names (suc k) (string_bytes n ++ rest) ≡ ok (n ∷ ns)
unfolding read_names
read_names_step n k rest h ih = rw (read-string_bytes n rest h, ih)

read-name_bytes :
    (ns : List Bytes) (rest : Bytes)
    → All IsName ns
    → read_names (length ns) (name_bytes ns ++ rest) ≡ ok ns
unfolding name_bytes
read-name_bytes [] rest h = unfold read_names in refl
read-name_bytes (n ∷ ns) rest h =
    rw (append_assoc (string_bytes n) (name_bytes ns) rest)
      (read_names_step n (length ns) (name_bytes ns ++ rest) h.0 (read-name_bytes ns rest h.1))

-- An index of fewer than 2^32 UTF-8 names, each shorter than 2^16 bytes, decodes to those names in
-- their order.
pub decode-encode_table_index :
    (ns : List Bytes)
    → All IsName ns
    → length ns < 2 ^ 32
    → decode_table_index (encode_table_index ns) ≡ ok ns
unfolding decode_table_index encode_table_index
decode-encode_table_index ns h few =
    let p = le_bytes 4 (length ns % 2 ^ 32) in
    let four : length p ≡ 4 = length-le_bytes 4 (length ns % 2 ^ 32) in
    let same : from_le_bytes p ≡ length ns =
      omega (arith, from_le_bytes-le_bytes 4 (length ns % 2 ^ 32) (omega arith)) in
    rw (
      write_names-append p ns,
      length-append p (name_bytes ns),
      four,
      le→ltb (4 + length (name_bytes ns)) 4 (omega arith),
      take-append 4 p (name_bytes ns) four,
      drop-append 4 p (name_bytes ns) four,
      same,
      ← append-nil (name_bytes ns),
      read-name_bytes ns [] h,
    )
