-- ===== src/Signerd.antt =====
-- internal/signerd: the daemon that signs for its owner, and its client.
pub mod Client
pub mod Gates
use kessa.Base.{
  ℕ, ltb, ◌==◌, Bytes, Str, codes, str_eq, is_empty, length, take, Bool, true, false, not, ◌&&◌,
  ◌||◌, Option, none, some, List, [], ◌∷◌, ◌++◌, map, Result, ok, err, ◌>>=◌, ◌>>◌, guard, require,
  if◌then◌else◌,
}
use kessa.Base.Dict.{Dict, lookup, insert}
use kessa.Base.Int.{ℤ}
use kessa.Errors.{Error}
use kessa.Keys.{Key, Jwk, Signer, to_jwk, public_key}
use kessa.Platform.{Platform}
use kessa.Types.{Did}

pub data KeyPolicy : Type 0 where
  routine approval attestation : KeyPolicy
  unknown : ℤ → KeyPolicy

-- `known`
unfoldable pub is_known : KeyPolicy → Bool
is_known (unknown n) = false
is_known _ = true

-- `requiresHardware`
unfoldable pub requires_hardware : KeyPolicy → Bool
requires_hardware routine = false
requires_hardware attestation = false
requires_hardware approval = true
requires_hardware (unknown n) = true

-- `hardware` is what `isHardwareBacked` finds of the signer; `none` is a nil signer.
pub record HeldKey : Type 0 where
  pub signer : Option Signer
  pub hardware : Bool
  pub policy : KeyPolicy

pub data DaemonError : Type 0 where
  nil_signer : DaemonError
  undefined_policy software_refused : Did → DaemonError
  malformed : DaemonError
  not_held : Did → DaemonError
  no_public_jwk : DaemonError
  sign_failed : Error → DaemonError
  unknown_op : Str → DaemonError
  no_peer_credentials unauthorized : DaemonError

pub record Server : Type 0 where
  pub signers : Dict Signer
  pub owner : ℕ

check_held : HeldKey → Result DaemonError Signer
check_held k = do
  s ← require k.signer nil_signer
  guard (is_known k.policy) (undefined_policy s.did)
  guard (not (requires_hardware k.policy && not k.hardware)) (software_refused s.did)
  ok s

hold_all : Dict Signer → List HeldKey → Result DaemonError (Dict Signer)
unfolding check_held
hold_all m [] = ok m
hold_all m (k ∷ ks) = do s ← check_held k; hold_all (insert s.did s m) ks

-- `NewKeys`, for the user that runs the process.
unfoldable pub new_keys : List HeldKey → ℕ → Result DaemonError Server
unfolding hold_all
new_keys ks uid = do m ← hold_all [] ks; ok (record { signers = m; owner = uid })

-- `Add`
unfoldable pub add : Server → Signer → Server
add server s = record server { signers = insert s.did s server.signers }

pub record Request : Type 0 where
  pub op : Str
  pub did : Did
  pub data_ : Bytes

-- `Response`: one of the values, or an error.
pub data Response : Type 0 where
  dids : List Did → Response
  public_jwk : Jwk → Response
  signed : Bytes → Response
  failed : DaemonError → Response

comes_before : Str → Str → Bool
comes_before [] t = true
comes_before (c ∷ s) [] = false
comes_before (c ∷ s) (d ∷ t) = ltb c d || (c == d && comes_before s t)

insert_sorted : Str → List Str → List Str
unfolding comes_before
insert_sorted s [] = s ∷ []
insert_sorted s (t ∷ ts) =
    let rest = insert_sorted s ts in if comes_before s t then s ∷ t ∷ ts else t ∷ rest

sorted_keys : Dict Signer → List Did
unfolding insert_sorted
sorted_keys [] = []
sorted_keys ((d, s) ∷ m) = insert_sorted d (sorted_keys m)

-- `list`
unfoldable pub list : Server → List Did
unfolding sorted_keys
list server = sorted_keys server.signers

-- `publicJWK`: a key without a JWK is refused.
jwk_answer : Option Jwk → Response
jwk_answer none = failed no_public_jwk
jwk_answer (some j) = public_jwk j

public_answer : Platform → Did → Option Signer → Response
unfolding jwk_answer
public_answer p d none = failed (not_held d)
public_answer p d (some s) = jwk_answer (to_jwk p s.public)

signature_answer : Result Error Bytes → Response
signature_answer (ok sig) = signed sig
signature_answer (err x) = failed (sign_failed x)

sign_answer : Did → Bytes → Option Signer → Response
unfolding signature_answer
sign_answer d message none = failed (not_held d)
sign_answer d message (some s) = signature_answer (s.sign message)

-- `dispatch`, of a request that was decoded.
unfoldable pub answer : Platform → Server → Request → Response
unfolding public_answer sign_answer
answer p server r =
    if str_eq r.op (codes "list")
    then dids (list server)
    else if str_eq r.op (codes "public")
    then public_answer p r.did (lookup r.did server.signers)
    else if str_eq r.op (codes "sign")
    then sign_answer r.did r.data_ (lookup r.did server.signers)
    else failed (unknown_op r.op)

answer_decoded : Platform → Server → Option Request → Response
answer_decoded p server none = failed malformed
answer_decoded p server (some r) = answer p server r

-- `dispatch`
unfoldable pub dispatch : Platform → (Bytes → Option Request) → Server → Bytes → Response
unfolding answer_decoded
dispatch p decode server line = answer_decoded p server (decode line)

abbrev pub max_message : ℕ
max_message = 1048576

add_byte : ℕ → List Bytes → List Bytes
add_byte c [] = (c ∷ []) ∷ []
add_byte c (l ∷ ls) = (c ∷ l) ∷ ls

-- `ReadBytes` over the stream: each line with its end, and what is left after the last one.
read_lines : Bytes → List Bytes
unfolding add_byte
read_lines [] = []
read_lines (c ∷ cs) =
    let rest = read_lines cs in if c == 10 then (c ∷ []) ∷ rest else add_byte c rest

check_peer : Server → Option ℕ → Result DaemonError (Unit {0})
check_peer server none = err no_peer_credentials
check_peer server (some uid) = guard (uid == server.owner) unauthorized

answer_all : Platform → (Bytes → Option Request) → Server → List Bytes → List Response
answer_all p decode server [] = []
answer_all p decode server (l ∷ ls) = dispatch p decode server l ∷ answer_all p decode server ls

after_peer : List Response → Result DaemonError (Unit {0}) → List Response
after_peer replies (ok a) = replies
after_peer replies (err x) = failed x ∷ []

-- `handle`: the answers on one connection, by the credentials of its peer and what it sends.
unfoldable pub handle :
    Platform → (Bytes → Option Request) → Server → Option ℕ → Bytes → List Response
unfolding check_peer answer_all after_peer read_lines
handle p decode server peer sent =
    after_peer (answer_all p decode server (read_lines (take max_message sent)))
      (check_peer server peer)
