-- ===== src/Enforce/WriteAhead/File.antt =====
-- internal/enforce/wal.go: the bytes of the file of the durable log, and the records they hold.
use kessa.Base.{
  ℕ, zero, suc, ◌≡◌, ◌<◌, Bytes, length, length-append, arith, refl, sym, subst, some, List, [],
  ◌∷◌, ◌++◌, ok, true,
}
use kessa.Enforce.WriteAhead.{
  WalCodec, WalRecord, at_end, decoded, stored, open_wal, opened, read_all, read_records,
  read_decoded, put_first,
}
use mathlib.Core.List.{append_assoc}

-- A record is read back from its line, whatever follows; white space in front of what is left is
-- not counted.
pub record ReadsBack (codec : WalCodec) (r : WalRecord) : Type 0 where
  pub line : Bytes
  pub encoded : codec.encode r ≡ some line
  pub decodes : (rest : Bytes) → codec.decode (line ++ 10 ∷ rest) ≡ decoded r rest

-- A file that consists of the lines of these records.
pub data IsFile (codec : WalCodec) : List WalRecord → Bytes → Type 0 where
  no_lines : IsFile codec [] []
  one_more :
      {r : WalRecord} {rs : List WalRecord} {rest : Bytes} (b : ReadsBack codec r)
      → IsFile codec rs rest
      → IsFile codec (r ∷ rs) (b.line ++ 10 ∷ rest)

pub IsFile-snoc :
    (codec : WalCodec) (rs : List WalRecord) (bytes : Bytes) (r : WalRecord) (b : ReadsBack codec r)
    → IsFile codec rs bytes
    → IsFile codec (rs ++ r ∷ []) (bytes ++ (b.line ++ 10 ∷ []))
IsFile-snoc codec [] bytes r b no_lines = one_more b no_lines
IsFile-snoc codec (s ∷ rs) bytes r b (one_more {rest = rest} c file) =
    subst (IsFile codec (s ∷ (rs ++ r ∷ []))) (sym (append_assoc c.line (10 ∷ rest) _))
      (one_more c (IsFile-snoc codec rs rest r b file))

read_records-IsFile :
    (codec : WalCodec) (n : ℕ) (rs : List WalRecord) (bytes : Bytes)
    → codec.decode [] ≡ at_end
    → length bytes < n
    → IsFile codec rs bytes
    → read_records n codec bytes ≡ ok rs
unfolding read_records read_decoded put_first
read_records-IsFile codec zero rs bytes ends fits file = absurd (omega arith)
read_records-IsFile codec (suc n) [] bytes ends fits no_lines = rw ends refl
read_records-IsFile codec (suc n) (r ∷ rs) bytes ends fits (one_more {rest = rest} b file) =
    rw (b.decodes rest) (
      rw
        (read_records-IsFile codec n rs rest ends (omega (arith, length-append b.line (10 ∷ rest)))
          file)
        refl)

-- The file of a log is opened with the records whose lines it holds.
pub open_wal-IsFile :
    (codec : WalCodec) (rs : List WalRecord) (bytes : Bytes)
    → codec.decode [] ≡ at_end
    → IsFile codec rs bytes
    → open_wal codec (stored bytes)
      ≡ ok (record { is_open = true; content = bytes; recovered = rs; codec = codec })
unfolding open_wal opened read_all
open_wal-IsFile codec rs bytes ends file =
    rw (read_records-IsFile codec (suc (length bytes)) rs bytes ends (omega arith) file) refl
