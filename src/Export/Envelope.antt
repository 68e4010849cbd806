-- ===== src/Export/Envelope.antt =====
-- The envelope signature: exports that are built and checked, and what the signature binds.
use kessa.Base.{
  ◌<◌, ◌^◌, ◌==◌, ◌≡◌, ◌≢◌, refl, sym, ap, ◌∙◌, subst, ◌⊎◌, Str, codes, str_eq, true, false, not,
  Option, List, length, drop, map, ok, >>=-eq-ok, ok_inj, arith,
}
use kessa.Base.Binary.{
  big_endian, big_endian_inj, length-big_endian, NoZero, no_zero-NoZero, part_inj, append_inj,
}
use kessa.Audit.{verify_entries}
use kessa.Audit.Data.{Entry}
use kessa.Audit.Tampering.{Collision, content, EncodesPrevHash, verify_entries-content}
use kessa.Env.{Env}
use kessa.Export.{
  Export, CredentialSet, carried_id, log_tip, envelope_signing_input, envelope_input, build, is_v1,
  verify_envelope,
}
use kessa.Keys.{Key, Signer, IsGenuine}
use kessa.Policy.{Policy}

-- What a genuine enforcement point builds with a signature that is not empty has an envelope that
-- verifies under its key, and is of the version that carries evidence.
pub verify_envelope-build :
    (env : Env) (ep : Signer) (es : List Entry) (set : CredentialSet) (pol : Option Policy)
    (e : Export)
    → IsGenuine env.platform ep
    → build env ep es set pol ≡ ok e
    → length e.envelope_signature ≢ 0
    → (verify_envelope env e ep.public ≡ ok tt) × (is_v1 e ≡ false)
unfolding build verify_envelope is_v1 str_eq envelope_input
verify_envelope-build env ep es set pol e genuine h nonempty =
    let (pid, addressed, h1) = >>=-eq-ok (carried_id env pol) _ h in
    let (sig, signed, made) = >>=-eq-ok (ep.sign _) _ h1 in
    let built = ok_inj made in
    let filled : not (length sig == 0) ≡ true =
      ground (arith, ap (λ x. length x.envelope_signature) built) in
    let whole = genuine _ sig signed in
    subst (λ x. (verify_envelope env x ep.public ≡ ok tt) × (is_v1 x ≡ false)) built
      (rw addressed (rw filled (rw whole refl)), refl)

tag_NoZero : NoZero (codes "kessa/audit-export-envelope/v2")
tag_NoZero = no_zero-NoZero (codes "kessa/audit-export-envelope/v2") refl

-- The parts of an envelope that have to be free of zero bytes, for the message to be read back.
abbrev pub IsFramed : Export → Str → Type 0
IsFramed e pid = NoZero e.version × NoZero e.signer × NoZero pid × (length e.entries < 2 ^ 64)

-- Two envelopes have one message only with the same version, signer, policy id, number of entries
-- and last hash.
pub envelope_input_inj :
    (e f : Export) (p q : Str)
    → IsFramed e p
    → IsFramed f q
    → envelope_input e p ≡ envelope_input f q
    → (e.version ≡ f.version)
      × (e.signer ≡ f.signer)
      × (p ≡ q)
      × (length e.entries ≡ length f.entries)
      × (log_tip e.entries ≡ log_tip f.entries)
unfolding envelope_input envelope_signing_input
envelope_input_inj e f p q he hf h =
    let (_, e1) =
      part_inj (codes "kessa/audit-export-envelope/v2") (codes "kessa/audit-export-envelope/v2")
        tag_NoZero tag_NoZero h in
    let (versions, e2) = part_inj e.version f.version he.0 hf.0 e1 in
    let (signers, e3) = part_inj e.signer f.signer he.1 hf.1 e2 in
    let (ids, e4) = part_inj p q he.2 hf.2 e3 in
    let (counts, tips) =
      append_inj (big_endian (length e.entries)) (big_endian (length f.entries))
        (length-big_endian (length e.entries) ∙ sym (length-big_endian (length f.entries))) e4 in
    (
      versions,
      signers,
      ids,
      big_endian_inj (length e.entries) (length f.entries) he.3 hf.3 counts,
      ap (drop 1) tips,
    )

-- One envelope message stands for one log: where two exports whose entries verify have the same
-- signed message, no entry was cut off, added or changed between them, or else SHA-256 collides.
-- The policy ids and the fields in front of the entries have to be framed without a zero byte, the
-- counts to fit 64 bits, and the encoding to determine the previous hash of an entry.
pub envelope_input-content :
    (env : Env) (e f : Export) (p q : Str) (k j : Key)
    → EncodesPrevHash env
    → IsFramed e p
    → IsFramed f q
    → verify_entries env k e.entries ≡ ok tt
    → verify_entries env j f.entries ≡ ok tt
    → envelope_input e p ≡ envelope_input f q
    → (map (content env) e.entries ≡ map (content env) f.entries) ⊎ Collision env
unfolding log_tip
envelope_input-content env e f p q k j keeps he hf a b h =
    let (_, _, _, counts, tips) = envelope_input_inj e f p q he hf h in
    verify_entries-content env keeps k j e.entries f.entries counts a b tips
