-- ===== src/Examples/Records.antt =====
-- Evidence sets, envelopes and the start of a proxy at concrete inputs.
use kessa.Base.{
  ◌≡◌, refl, sym, ap, subst, ◌∙◌, some_inj, ok_inj, Result, ◌⊎◌, Str, codes, str_eq, true, none,
  some, List, All, [], ◌∷◌, ◌++◌, map, ok, arith,
}
use kessa.Base.Binary.{◌⁀◌, no_zero-NoZero, big_endian}
use kessa.Base.Dict.{lookup, insert}
use kessa.Base.Int.{pos}
use kessa.Audit.{verify_entries, check_entry, entry_hash, sig_input, load_log, last_hash, new_log}
use kessa.Audit.Tampering.{content, Collision}
use kessa.Enforce.{Proxy, Config, classifier, new_proxy, entries_of}
use kessa.Chain.{Links}
use kessa.Errors.{Error}
use kessa.Types.{Decision}
use kessa.Audit.Data.{Entry}
use kessa.Enforce.Decide.{decide}
use kessa.Enforce.Handle.{draft}
use kessa.Enforce.Handle.Logged.{IsDecided, Handled, refused, logged, handle-Handled}
use kessa.Export.Checks.{terminal}
use kessa.Audit.{seal, tip}
use kessa.Enforce.Recovery.{Step, run, lines_of, new_lines, evidence_of, new_proxy-run}
use kessa.Enforce.WriteAhead.{Wal, at_end, stored, persists, open_wal}
use kessa.Enforce.WriteAhead.File.{ReadsBack, no_lines}
use kessa.Examples.Chains.{grant, granted}
use kessa.Examples.Requests.{
  open_policy, open_id, sealed, set_after, exported, fresh, posting, lines_codec, read_line,
  record_of_grant, found, at_tip, sealed_lem,
}
use kessa.Examples.World.{world, point, documents, signer-IsGenuine, world-EncodesPrevHash}
use kessa.Export.{
  CredentialRecord, credential_id, add, policy_id, carried_id, build, envelope_input,
  envelope_signing_input, log_tip, version_2,
}
use kessa.Export.Envelope.{envelope_input-content, IsFramed}
use kessa.Keys.{verify_signature}

abbrev grant_id : Str
grant_id = codes "kessa/credential-id/v1" ⁀ (codes "did:worker" ++ codes "did:alice")

added : add world [] granted grant.issuer_proof ≡ ok (set_after, grant_id)
unfolding add credential_id lookup insert
added = refl

built : build world point (sealed ∷ []) set_after (some open_policy) ≡ ok exported
unfolding build carried_id policy_id envelope_input envelope_signing_input log_tip last_hash
    big_endian
built = refl

framed : IsFramed exported (codes "policy")
framed = (
  no_zero-NoZero version_2 refl,
  no_zero-NoZero (codes "did:point") refl,
  no_zero-NoZero (codes "policy") refl,
  omega arith,
)

one_verifies : verify_entries world point.public (sealed ∷ []) ≡ ok tt
unfolding verify_entries check_entry entry_hash sig_input str_eq verify_signature
one_verifies = refl

envelope_input-content_example :
    (map (content world) (sealed ∷ []) ≡ map (content world) (sealed ∷ [])) ⊎ Collision world
envelope_input-content_example =
    envelope_input-content world exported exported (codes "policy") (codes "policy") point.public
      point.public world-EncodesPrevHash framed framed one_verifies one_verifies refl

abbrev config : Config
config = record {
  enforcement_point = point;
  evaluator = classifier open_policy;
  dids = documents;
  status = none;
  wal = some (record {
    is_open = true;
    content = b'1' ∷ 10 ∷ [];
    recovered = record { entry = sealed; credentials = [] } ∷ [];
    codec = lines_codec;
  });
}

abbrev resumed : Proxy
resumed = record {
  enforcement_point = point;
  evaluator = classifier open_policy;
  carried_policy = some open_policy;
  policy_id = open_id;
  dids = documents;
  status = none;
  log = record { signer = point; entries = sealed ∷ [] };
  set = [];
  wal = config.wal;
}

started : new_proxy world config ≡ ok resumed
unfolding new_proxy policy_id load_log verify_entries check_entry entry_hash sig_input str_eq
    verify_signature new_log kessa.Enforce.add_all
started = refl

-- The request of the requests' world, from a new durable log to a restart.
abbrev empty_log : Wal
empty_log = record { is_open = true; content = []; recovered = []; codec = lines_codec }

abbrev opening : Config
opening = record {
  enforcement_point = point;
  evaluator = classifier open_policy;
  dids = documents;
  status = fresh.status;
  wal = some empty_log;
}

opened : (new_proxy world opening ≡ ok fresh) × (open_wal lines_codec (stored []) ≡ ok empty_log)
unfolding new_proxy policy_id open_wal new_log read_line
opened = (refl, refl)

ends : lines_codec.decode [] ≡ at_end
unfolding read_line
ends = refl

abbrev posted : List Step
posted = (posting, (pos 9, persists)) ∷ []

line_of_posting :
    ReadsBack lines_codec (record { entry = sealed; credentials = record_of_grant ∷ [] })
unfolding read_line str_eq
line_of_posting = record { line = b'1' ∷ []; encoded = refl; decodes = λ rest. refl }

same_decision :
    {d : Decision} {e : Entry} {creds : List CredentialRecord}
    → IsDecided world fresh posting (grant ∷ []) (pos 9) d e creds
    → e ≡ sealed
unfolding terminal
same_decision w =
    let is_actor = some_inj (sym w.is_actor) in
    let is_allowing =
      w.decided
      ∙ ap (λ a. decide world fresh posting (grant ∷ []) a (tip fresh.log).0 (tip fresh.log).1)
          is_actor
      ∙ sym at_tip.1 in
    ok_inj (
      sym w.sealed
      ∙ ap (λ is. seal world fresh.log (draft fresh posting (grant ∷ []) is _ (pos 9)))
          (ap (λ r. r.1) (ok_inj (sym w.found ∙ found)))
      ∙ ap
          (λ x.
            seal world fresh.log
              (draft fresh posting (grant ∷ []) (record_of_grant.credential_id ∷ []) x (pos 9)))
          is_allowing
      ∙ sealed_lem)

same_entry :
    {ls : Links} {d : Decision} {e : Entry} {creds : List CredentialRecord}
    → grant ∷ [] ≡ ls
    → IsDecided world fresh posting ls (pos 9) d e creds
    → e ≡ sealed
same_entry {d = d} {e = e} {creds = creds} same w =
    same_decision (subst (λ l. IsDecided world fresh posting l (pos 9) d e creds) (sym same) w)

lines_read :
    (q : Proxy) (r : Result Error (Decision × Entry))
    → Handled world fresh posting (pos 9) persists q r
    → All (ReadsBack lines_codec) (new_lines world fresh posting r ++ [])
unfolding new_lines evidence_of
lines_read q r (refused same grows unwritten) = tt
lines_read q r (logged given w durable all same) = (
  subst
      (λ e.
        ReadsBack lines_codec
          (record { entry = e; credentials = evidence_of world [] (some (grant ∷ [])) }))
      (sym (same_entry (some_inj given) w)) (rw (evidence_of, found) line_of_posting),
  tt,
)

posting_reads : All (ReadsBack lines_codec) (lines_of world fresh posted)
unfolding lines_of
posting_reads = lines_read _ _ (handle-Handled world fresh posting (pos 9) persists)

new_proxy-run_example :
    (v w' : Wal) × ((run world fresh posted).wal ≡ some v)
    × (open_wal lines_codec (stored v.content) ≡ ok w')
    × (new_proxy world (record opening { wal = some w' })
        ≡ ok (record (run world fresh posted) { wal = some w' }))
new_proxy-run_example =
    new_proxy-run world opening lines_codec [] [] empty_log fresh posted
      (signer-IsGenuine (codes "did:point") 3) ends no_lines opened.1 refl opened.0 (tt, tt)
      posting_reads
