-- ===== src/Examples/Logs.antt =====
-- Logs and approvals at concrete entries.
use kessa.Base.{
  ℕ, ◌≡◌, refl, ◌↔◌, ◌⊎◌, Bytes, codes, str_eq, none, some, [], ◌∷◌, ◌++◌, map, ok, arith,
}
use kessa.Base.Binary.{big_endian, ◌⁀◌, NoZero, no_zero-NoZero}
use kessa.Base.Int.{pos}
use kessa.Audit.{
  Log, genesis_hash, entry_hash, sig_input, last_hash, tip, at_position, seal, commit, append,
  load_log, verify_entries, check_entry, approval_input,
}
use kessa.Audit.Approvals.{approval_input_inj}
use kessa.Audit.Data.{Entry, EntryDraft}
use kessa.Audit.Entries.{IsLog, verify_entries-IsLog}
use kessa.Audit.Growth.{append-verify_entries}
use kessa.Audit.Tampering.{content, Collision, verify_entries-content}
use kessa.Credential.Data.{Options}
use kessa.Credential.{create, holder_jwk, prove_possession, verify_possession, pop_input}
use kessa.Credential.Possession.{verify_possession-prove, pop_input_inj}
use kessa.Examples.Chains.{granted}
use kessa.Examples.Requests.{post, allowing, position, proof}
use kessa.Examples.World.{
  toy, world, worker, point, key, signer-IsGenuine, toy-DecodesBase64, world-EncodesPrevHash,
  world-EscapesControls,
}
use kessa.Keys.{verify_signature, public_key, to_jwk, decode_base64url}

abbrev note : EntryDraft
note = record {
  action = post;
  resolved_chain = codes "did:alice" ∷ codes "did:worker" ∷ [];
  chain_credential_ids = [];
  decision = allowing;
  policy_id = [];
  pop_nonce = [];
  pop_signature = [];
  approved_by = [];
  approval = [];
  timestamp = pos 9;
}

abbrev empty : Log
empty = record { signer = point; entries = [] }

abbrev hash : Bytes
hash = codes "kessa/audit-entry/v2" ⁀ genesis_hash

abbrev noted : Entry
noted = record (at_position 0 genesis_hash note) {
  entry_hash = hash;
  signature = key 3 ++ (codes "kessa/audit-sig/v1" ⁀ hash);
}

abbrev one_entry : Log
one_entry = record { signer = point; entries = noted ∷ [] }

sealed : seal world empty note ≡ ok noted
unfolding seal tip entry_hash sig_input last_hash
sealed = refl

appended : append world empty note ≡ ok (one_entry, noted)
unfolding append seal commit tip entry_hash sig_input last_hash str_eq
appended = refl

nothing_fails : verify_entries world point.public [] ≡ ok tt
unfolding verify_entries
nothing_fails = refl

append-verify_entries_example :
    ((noted ∷ []) ≡ [] ++ noted ∷ []) × (load_log world point (noted ∷ []) ≡ ok one_entry)
append-verify_entries_example =
    append-verify_entries world empty one_entry note noted (signer-IsGenuine (codes "did:point") 3)
      nothing_fails appended

verify_entries-IsLog_example :
    (verify_entries world point.public (noted ∷ []) ≡ ok tt)
    ↔ IsLog world point.public 0 genesis_hash (noted ∷ [])
verify_entries-IsLog_example = verify_entries-IsLog world point.public (noted ∷ [])

one_verifies : verify_entries world point.public (noted ∷ []) ≡ ok tt
unfolding verify_entries check_entry entry_hash sig_input str_eq verify_signature
one_verifies = refl

verify_entries-content_example :
    (map (content world) (noted ∷ []) ≡ map (content world) (noted ∷ [])) ⊎ Collision world
verify_entries-content_example =
    verify_entries-content world world-EncodesPrevHash point.public point.public (noted ∷ [])
      (noted ∷ []) refl one_verifies one_verifies refl

abbrev approval_message : Bytes
approval_message =
    codes "kessa/action-approval/v2" ⁀ codes "did:worker" ⁀ codes "action" ⁀ big_endian 4 ⁀ hash

approval_framed : approval_input world (codes "did:worker") post 4 hash ≡ ok approval_message
unfolding approval_input
approval_framed = refl

worker_NoZero : NoZero (codes "did:worker")
worker_NoZero = no_zero-NoZero (codes "did:worker") refl

approval_input_inj_example :
    (codes "did:worker" ≡ codes "did:worker")
    × (world.marshal_action post ≡ world.marshal_action post)
    × (◌≡◌ {A = ℕ} 4 4)
    × (hash ≡ hash)
approval_input_inj_example =
    approval_input_inj world (codes "did:worker") (codes "did:worker") post post 4 4 hash hash
      approval_message world-EscapesControls worker_NoZero worker_NoZero (omega arith) (omega arith)
      approval_framed approval_framed

abbrev options : Options
options = record {
  subject = granted.subject;
  issuer = granted.issuer;
  macaroon = granted.macaroon;
  holder_key = some worker.public;
  status_ref = granted.status_ref;
  vc_wrapper = none;
}

created : create toy options ≡ ok granted
unfolding create holder_jwk to_jwk public_key decode_base64url str_eq
created = refl

proved : prove_possession world granted worker (5 ∷ []) post 0 genesis_hash ≡ ok proof
unfolding prove_possession pop_input
proved = refl

verify_possession-prove_example : verify_possession world granted proof post 0 genesis_hash ≡ ok tt
verify_possession-prove_example =
    verify_possession-prove world options granted worker (5 ∷ []) post 0 genesis_hash proof
      toy-DecodesBase64 (signer-IsGenuine (codes "did:worker") 2) refl created (λ e. ground arith)
      proved

abbrev proof_message : Bytes
proof_message = codes "kessa/pop/v2" ⁀ codes "did:worker" ⁀ codes "m1" ⁀ (5 ∷ []) ⁀ position

proof_framed : pop_input world granted (5 ∷ []) post 0 genesis_hash ≡ ok proof_message
unfolding pop_input
proof_framed = refl

names_NoZero : NoZero granted.subject × NoZero granted.macaroon.identifier
names_NoZero = (no_zero-NoZero (codes "did:worker") refl, no_zero-NoZero (codes "m1") refl)

pop_input_inj_example :
    (granted.subject ≡ granted.subject)
    × (granted.macaroon.identifier ≡ granted.macaroon.identifier)
    × (◌≡◌ {A = Bytes} (5 ∷ []) (5 ∷ []))
    × (world.marshal_action post ≡ world.marshal_action post)
    × (◌≡◌ {A = ℕ} 0 0)
    × (genesis_hash ≡ genesis_hash)
pop_input_inj_example =
    pop_input_inj world granted granted (5 ∷ []) (5 ∷ []) post post 0 0 genesis_hash genesis_hash
      proof_message world-EscapesControls names_NoZero names_NoZero (omega arith) (omega arith) refl
      proof_framed proof_framed
