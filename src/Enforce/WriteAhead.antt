-- ===== src/Enforce/WriteAhead.antt =====
-- internal/enforce/wal.go: the durable log that is written before a decision is returned.
pub mod File
use kessa.Base.{
  ℕ, zero, suc, ◌≡◌, refl, sym, ap, ◌∙◌, Bytes, ◌⊎◌, inl, inr, Bool, true, false, Option, none,
  some, List, [], ◌∷◌, ◌++◌, length, take, Result, ok, err, ◌>>=◌, ◌>>◌, guard,
}
use kessa.Audit.Data.{Entry}
use kessa.Errors.{
  Error, log_closed, line_not_encoded, line_not_written, line_not_synced, log_unreadable,
  log_malformed, log_not_opened,
}
use kessa.Export.{CredentialRecord}
use mathlib.Core.List.{append-nil}

-- One line of the file: an entry and the credentials that were first seen at it.
pub record WalRecord : Type 0 where
  pub entry : Entry
  pub credentials : List CredentialRecord

-- What a json.Decoder finds in front of it: the end, something malformed, or a record, with what
-- is left to read.
pub data Decoded : Type 0 where
  at_end malformed : Decoded
  decoded : WalRecord → Bytes → Decoded

-- encoding/json at the records: json.Marshal, and `Decode` of a json.Decoder.
pub record WalCodec : Type 0 where
  pub encode : WalRecord → Option Bytes
  pub decode : Bytes → Decoded

-- Whether the file still is open, its bytes, what was read when it was opened, and the encoding.
pub record Wal : Type 0 where
  pub is_open : Bool
  pub content : Bytes
  pub recovered : List WalRecord
  pub codec : WalCodec

-- What the disk does to one append. A failed write leaves the first bytes of the line in the file,
-- and a failed sync all of it.
pub data Disk : Type 0 where
  persists sync_fails : Disk
  write_fails : ℕ → Disk

-- What is at the path of the log; where nothing is, a file may not be allowed.
pub data Stored : Type 0 where
  missing not_creatable unreadable : Stored
  stored read_only : Bytes → Stored

put_first : WalRecord → Result Error (List WalRecord) → Result Error (List WalRecord)
put_first r (ok rs) = ok (r ∷ rs)
put_first r (err x) = err x

read_decoded : (Bytes → Result Error (List WalRecord)) → Decoded → Result Error (List WalRecord)
unfolding put_first
read_decoded next at_end = ok []
read_decoded next malformed = err log_malformed
read_decoded next (decoded r rest) = put_first r (next rest)

-- The loop of `readWAL`. Each record takes at least one byte of the data.
read_records : ℕ → WalCodec → Bytes → Result Error (List WalRecord)
unfolding read_decoded
read_records zero codec data_ = err log_malformed
read_records (suc left) codec data_ =
    read_decoded (λ rest. read_records left codec rest) (codec.decode data_)

pub read_all : WalCodec → Bytes → Result Error (List WalRecord)
unfolding read_records
read_all codec data_ = read_records (suc (length data_)) codec data_

opened : WalCodec → Bytes → Result Error (List WalRecord) → Result Error Wal
opened codec data_ (err x) = err x
opened codec data_ (ok rs) =
    ok (record { is_open = true; content = data_; recovered = rs; codec = codec })

refuse_to_write : Result Error Wal → Result Error Wal
refuse_to_write (ok w) = err log_not_opened
refuse_to_write (err x) = err x

-- `OpenWAL`, with `readWAL`.
unfoldable pub open_wal : WalCodec → Stored → Result Error Wal
unfolding opened refuse_to_write read_all
open_wal codec missing = opened codec [] (ok [])
open_wal codec not_creatable = err log_not_opened
open_wal codec unreadable = err log_unreadable
open_wal codec (stored data_) = opened codec data_ (read_all codec data_)
open_wal codec (read_only data_) = refuse_to_write (opened codec data_ (read_all codec data_))

write_line : Wal → Bytes → Disk → Wal × Result Error (Unit {0})
write_line w line persists = (record w { content = w.content ++ line }, ok tt)
write_line w line (write_fails n) =
    (record w { content = w.content ++ take n line }, err line_not_written)
write_line w line sync_fails = (record w { content = w.content ++ line }, err line_not_synced)

write_encoded : Wal → Option Bytes → Disk → Wal × Result Error (Unit {0})
unfolding write_line
write_encoded w none d = (w, err line_not_encoded)
write_encoded w (some line) d = write_line w (line ++ 10 ∷ []) d

append_open : Bool → Wal → WalRecord → Disk → Wal × Result Error (Unit {0})
unfolding write_encoded
append_open true w r d = write_encoded w (w.codec.encode r) d
append_open false w r d = (w, err log_closed)

-- `WAL.Append`
unfoldable pub append : Wal → WalRecord → Disk → Wal × Result Error (Unit {0})
unfolding append_open
append w r d = append_open w.is_open w r d

-- `WAL.Close`
pub close : Wal → Wal
close w = record w { is_open = false }

-- The disk does what it is told, or refuses a write as a whole.
abbrev pub IsWhole : Disk → Type 0
IsWhole persists = Unit {0}
IsWhole (write_fails n) = n ≡ 0
IsWhole sync_fails = ⊥

-- The file of one state is that of another with more bytes at its end.
abbrev pub Lengthens : Wal → Wal → Type 0
Lengthens w v = (tail : Bytes) × (v ≡ record w { content = w.content ++ tail })

pub unchanged : (w : Wal) → w ≡ record w { content = w.content ++ [] }
unchanged w = ap (λ c. record w { content = c }) (sym (append-nil w.content))

-- An append either puts the line of the record at the end of the file and reports no error, or it
-- reports one; then at most some bytes are added at the end, and none where the disk is whole.
pub append-cases :
    (w : Wal) (r : WalRecord) (d : Disk)
    → ((line : Bytes) × (w.codec.encode r ≡ some line)
        × (append w r d ≡ (record w { content = w.content ++ (line ++ 10 ∷ []) }, ok tt)))
      ⊎ ((v : Wal) × (x : Error) × (append w r d ≡ (v, err x))
          × Lengthens w v
          × (IsWhole d → v ≡ w))
unfolding append append_open write_encoded write_line
append-cases w r d = by_state w.is_open (w.codec.encode r) refl d
  where
    by_state :
        (b : Bool) (o : Option Bytes)
        → w.codec.encode r ≡ o
        → (d : Disk)
        → ((line : Bytes) × (w.codec.encode r ≡ some line)
            × (append_open b w r d
                ≡ (record w { content = w.content ++ (line ++ 10 ∷ []) }, ok tt)))
          ⊎ ((v : Wal) × (x : Error) × (append_open b w r d ≡ (v, err x))
              × Lengthens w v
              × (IsWhole d → v ≡ w))
    by_state false o e d = inr (w, log_closed, refl, ([], unchanged w), λ n. refl)
    by_state true none e d = inr (w, line_not_encoded, rw e refl, ([], unchanged w), λ n. refl)
    by_state true (some line) e persists = inl (line, e, rw e refl)
    by_state true (some line) e (write_fails n) = inr (
      record w { content = w.content ++ take n (line ++ 10 ∷ []) },
      line_not_written,
      rw e refl,
      (take n (line ++ 10 ∷ []), refl),
      λ h.
          ap (λ k. record w { content = w.content ++ take k (line ++ 10 ∷ []) }) h
          ∙ sym (unchanged w),
    )
    by_state true (some line) e sync_fails = inr (
      record w { content = w.content ++ (line ++ 10 ∷ []) },
      line_not_synced,
      rw e refl,
      (line ++ 10 ∷ [], refl),
      λ n. absurd n,
    )
