-- ===== src/Tests/Knowledge.antt =====
-- Reviews, imports and corrections on a small world, and the instances of their theorems.
use text.Mathlib.TextEquality.{eq_iff}
use coengram.Prelude.{
  ℕ, String, string_eq, pair_eq, nat_eq, ◌≡◌, ◌≢◌, refl, false, none, some, [], ◌∷◌, arith, keep,
  any,
}
use coengram.Dict
use coengram.Exec.{ok, err, lookup_error, for_each}
use coengram.Models.{TenantSession, explicit}
use coengram.Models.Items.{MemoryItem}
use coengram.Memory.{
  TenantStore, CorrectMemory, Governance, KnowledgeCandidate, CandidateStatus, PublicationEvent,
  ReviewKnowledge, ReviewDecision,
}
use coengram.Memory.Store.{correctable}
use coengram.Memory.Knowledge as Records
use coengram.Memory.Knowledge.{get_candidate, next_publication}
use coengram.Memory.Reviews.{publish_next}
use coengram.Memory.Module.{correct, owner_of}
use coengram.Memory.World.{World, put_store}
use coengram.Memory.Reachable.{Request, perform}
use coengram.Memory.Curators.{HasCurators, perform-HasCurators}
use coengram.Memory.Taken.{after_import, taken_over, publish_next-import_candidate}
use coengram.Memory.Corrected.{replacement, after_correction, correct_lem}
use coengram.Tests.Memory.{tea, noon, store, world, session, Nothing}

abbrev candidate : KnowledgeCandidate
candidate = record {
  id = "c1";
  tenant_id = "acme";
  claim = "tea is served at noon";
  confidence = 1;
  proposer_id = "ana";
  source_memory_ids = "m1" ∷ [];
  duplicate_memory_ids = [];
  conflicting_memory_ids = [];
  status = CandidateStatus.submitted;
  created_at = 10;
  reviewed_by = none;
  review_rationale = none;
}

abbrev proposals : Governance
proposals = record Records.init { candidates = record { entries = ("c1", candidate) ∷ [] } }

abbrev governed : World Nothing
governed = record world { governance = some proposals }

abbrev curator : TenantSession
curator = record session { actor_id = "bob"; roles = "knowledge_curator" ∷ [] }

abbrev approval : ReviewKnowledge
approval = record {
  candidate_id = "c1";
  decision = ReviewDecision.approve;
  rationale = "seen";
  idempotency_key = "k1";
}

governed-HasCurators : HasCurators none governed
unfolding Dict.get Dict.lookup
governed-HasCurators g same k c found s = absurd (ground (arith, same, eq_iff "c1" k))

perform-HasCurators_example :
    HasCurators none
      (for_each
        (perform none none)
        (Request.review_knowledge "v1" 20 curator approval ∷ [])
        governed).1
perform-HasCurators_example =
    perform-HasCurators none none (Request.review_knowledge "v1" 20 curator approval ∷ []) governed
      governed-HasCurators

-- the candidate as approved, with its event
abbrev event : PublicationEvent
event = record { id = "v1"; tenant_id = "acme"; candidate_id = "c1"; created_at = 20 }

abbrev approved : Governance
approved = record proposals {
  candidates = record {
    entries =
        ("c1", record candidate { status = CandidateStatus.publishing; reviewed_by = some "bob" })
        ∷ [];
  };
  outbox = event ∷ [];
}

abbrev publishing_candidate : KnowledgeCandidate
publishing_candidate = record candidate {
  status = CandidateStatus.publishing;
  reviewed_by = some "bob";
}

held : get_candidate "acme" "c1" approved ≡ some publishing_candidate
unfolding get_candidate Dict.get Dict.lookup
held = refl

upcoming : next_publication "acme" approved ≡ some event
unfolding next_publication keep
upcoming = refl

apart : ◌≢◌ {A = String} "globex" "acme"
apart same = ground (arith, eq_iff "globex" "acme")

abbrev taken : Governance
taken =
    after_import approved 30 "globex" "acme" "eve" "noise" 1 event publishing_candidate apart held
      upcoming

publish_next-import_candidate_example :
    (get_candidate "globex" "c1" taken
      ≡ some (
          taken_over approved 30 "globex" "acme" "eve" "noise" 1 event publishing_candidate apart
            held upcoming))
    × (get_candidate "acme" "c1" taken ≡ none)
    × (next_publication "acme" taken ≡ some event)
    × (publish_next "m9" 40 "acme" (record world { governance = some taken }) ≡ (
      err (lookup_error "Knowledge Candidate not found"),
      record world { governance = some taken },
    ))
publish_next-import_candidate_example =
    publish_next-import_candidate approved 30 "globex" "acme" "eve" "noise" 1 event
      publishing_candidate apart held upcoming (record world { governance = some taken }) "m9" 40
      refl

abbrev correction : CorrectMemory
correction = record {
  memory_id = "m1";
  replacement_content = "Ana likes black tea.";
  kind = explicit;
  confidence = 1;
  reason = "changed";
  idempotency_key = "k2";
}

has-store : Dict.get world.stores session.tenant_id ≡ some store
unfolding Dict.get Dict.lookup
has-store = refl

fresh-key : Dict.get store.correction_keys (owner_of session, correction.idempotency_key) ≡ none
unfolding Dict.get Dict.lookup
fresh-key = refl

none-before : any (correctable (owner_of session) correction.memory_id) [] ≡ false
unfolding any
none-before = refl

abbrev new_item : MemoryItem
new_item = replacement "m9" 50 session correction world store [] (noon ∷ []) tea

abbrev new_store : TenantStore
new_store = after_correction "m9" 50 session correction world store [] (noon ∷ []) tea

correct_lem_example :
    (correct none "m9" 50 session correction world
      ≡ (ok new_item, put_store world session.tenant_id new_store))
    × ((i' : String) (n' : ℕ) (s' : World Nothing)
        → Dict.get s'.stores session.tenant_id ≡ some new_store
        → correct none i' n' session correction s'
          ≡ (ok new_item, put_store s' session.tenant_id new_store))
correct_lem_example =
    correct_lem "m9" 50 session correction world store [] (noon ∷ []) tea has-store refl fresh-key
      none-before refl
