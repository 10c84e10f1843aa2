-- ===== src/Memory/Reviewers.antt =====
-- memory.py: no request lets an erasure be approved by its requester or by the owner of the memory.
use text.Mathlib.TextEquality.{eq_iff}
use coengram.Prelude.{
  String, ◌==◌, string_eq, ◌≡◌, ◌≢◌, refl, sym, ap, subst, inl, inr, Bool, false, ◌||◌, Option,
  some, List, arith, Option-cases,
}
use coengram.Exec.{ok, Exec, Nothing, for_each}
use coengram.Exec.Reads.{reads_then, then_pure}
use coengram.Exec.Keeps.{Keeps, Keeps-for_each}
use coengram.Models.{TenantSession}
use coengram.Memory.{TenantStore, Erasures, Governance, ErasureRequest, ReviewErasure}
use coengram.Memory.Erasure as Erasure
use coengram.Memory.Erasure.{get_request, erasure_view}
use coengram.Memory.Reviews.{require_separate, review_erasure}
use coengram.Memory.Separated.{
  IsSound, request-IsSound, review-IsSound, mark_completed-IsSound, import_tombstone-IsSound,
}
use coengram.Memory.World.{
  World, Commands, on_store, read_erasures, on_erasures, on_governance, on_durable,
}
use coengram.Memory.World.Laws.{on_erasures_lem}
use coengram.Memory.World.Keeps.{
  Keeps-on_store, Keeps-on_governance, Keeps-on_erasures, Keeps-on_durable, on_erasures_missing,
}
use coengram.Memory.Reachable.{Request, perform}
use coengram.Memory.Reachable.Perform.{Kept, perform-Keeps}
use coengram.Memory.Reachable.Reviews.{
  review_knowledge-Keeps, require_separate-Keeps, review_operator_knowledge-Keeps,
}

-- every request to erase is sound
abbrev pub HasReviewers : {W : Type 0} → World W → Type 0
HasReviewers s = (e : Erasures) → s.erasures ≡ some e → IsSound e

module _ {W A : Type 0} where
  store-HasReviewers :
      (t : String) (m : Exec TenantStore A) → Keeps {S = World W} HasReviewers (on_store t m)
  store-HasReviewers t m = Keeps-on_store t m (λ s store h found. h)

  durable-HasReviewers : (m : Exec W A) → Keeps HasReviewers (on_durable m)
  durable-HasReviewers m = Keeps-on_durable m (λ s h. h)

  governance-HasReviewers :
      (m : Exec Governance A) → Keeps {S = World W} HasReviewers (on_governance m)
  governance-HasReviewers m = Keeps-on_governance m (λ s g h found. h)

  erasures-HasReviewers :
      (m : Exec Erasures A)
      → ((e : Erasures) → IsSound e → IsSound (m e).1)
      → Keeps {S = World W} HasReviewers (on_erasures m)
  erasures-HasReviewers m k =
      Keeps-on_erasures m
        (λ s e h found e' same. subst IsSound (ground (arith, same)) (k e (h e found)))

module _ {W : Type 0} (session : TenantSession) (c : ReviewErasure) (s : World W) where
  require_separate_same : (require_separate session c s).1 ≡ s
  require_separate_same = (require_separate-Keeps (λ x. x ≡ s) session c).after s refl

  -- What a review of an erasure may rely on.
  require_separate_ok :
      (e : Erasures) (r : ErasureRequest) {u : Nothing}
      → s.erasures ≡ some e
      → get_request session.tenant_id c.request_id e ≡ some r
      → (require_separate session c s).0 ≡ ok u
      → (session.actor_id ≢ r.requester_id) × (session.actor_id ≢ r.owner_principal_id)
  unfolding require_separate read_erasures
  require_separate_ok e r has found passed =
      let checked : (r.requester_id == session.actor_id || r.owner_principal_id == session.actor_id)
          ≡ false =
        ground (arith, has, found) in
      (
        λ same. ground (arith, eq_iff r.requester_id session.actor_id),
        λ same. ground (arith, eq_iff r.owner_principal_id session.actor_id),
      )

  review-HasReviewers :
      HasReviewers s
      → (require_separate session c s).0 ≡ ok tt
      → HasReviewers (on_erasures (Erasure.review session.tenant_id session.actor_id c) s).1
  review-HasReviewers h passed = elim (Option-cases s.erasures) [
    | inl missing ↦ subst HasReviewers (sym (on_erasures_missing s _ missing)) h
    | inr (e, has) ↦
        subst HasReviewers (sym (ap (λ x. x.1) (on_erasures_lem s e has _))) (λ e' same.
          subst IsSound (ground (arith, same)) (
            review-IsSound session.tenant_id session.actor_id c e (h e has)
              (λ r found. require_separate_ok e r has found passed)))
  ]

  review_erasure-HasReviewers : HasReviewers s → HasReviewers (review_erasure session c s).1
  unfolding review_erasure
  review_erasure-HasReviewers h =
      reads_then HasReviewers (require_separate session c) _ s require_separate_same h (λ u passed.
        subst HasReviewers
          (sym (
            then_pure (on_erasures (Erasure.review session.tenant_id session.actor_id c))
              erasure_view s))
          (review-HasReviewers h passed))

module _ {W : Type 0} (commands : Option (Commands W))
    (self_approval : Option (String → String → Bool)) where
  kept : Kept {W = W} self_approval HasReviewers
  kept = record {
    durable = λ A m. durable-HasReviewers m;
    propose = λ i n t proposer c. governance-HasReviewers _;
    review_knowledge = λ i n session c.
        review_knowledge-Keeps _ i n session self_approval c (governance-HasReviewers _);
    review_operator_knowledge = λ i n t operator_id c.
        review_operator_knowledge-Keeps _ i n t operator_id c (governance-HasReviewers _);
    mark_published = λ t id. governance-HasReviewers _;
    import_candidate = λ n t proposer id claim confidence. governance-HasReviewers _;
    request = λ i n t requester owner c.
        erasures-HasReviewers _ (request-IsSound i n t requester owner c);
    review_erasure = λ session c. record { after = review_erasure-HasReviewers session c };
    mark_completed = λ n t id. erasures-HasReviewers _ (mark_completed-IsSound n t id);
    import_tombstone = λ t owner b. erasures-HasReviewers _ (import_tombstone-IsSound t owner b);
  }

  -- Whatever callers ask for, in any order, no request to erase becomes approved but by a reviewer who
  -- neither made it nor owns the memory, if that held of the requests before and each was kept
  -- under its own id.
  pub perform-HasReviewers :
      (rs : List Request) (s : World W)
      → HasReviewers s
      → HasReviewers (for_each (perform commands self_approval) rs s).1
  perform-HasReviewers rs s h =
      (Keeps-for_each (perform commands self_approval) rs (λ r.
          perform-Keeps commands self_approval _ kept r (λ A m. store-HasReviewers _ m))).after
        s h
