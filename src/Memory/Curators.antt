-- ===== src/Memory/Curators.antt =====
-- memory.py: no request lets knowledge be approved by someone who may not.
use Prim.Native.String.{◌++◌ as append_text}
use text.Mathlib.TextEquality.{eq_iff}
use coengram.Prelude.{
  ℕ, String, ◌==◌, string_eq, ◌≡◌, refl, sym, ap, subst, inl, inr, Bool, true, false, not, ◌&&◌,
  Option, some, List, arith, holds, Bool-cases, Option-cases,
}
use coengram.Exec.{ok, Exec, for_each}
use coengram.Exec.Reads.{reads_then, then_pure}
use coengram.Exec.Keeps.{Keeps, Keeps-for_each}
use coengram.Models.{TenantSession}
use coengram.Memory.{Erasures, Governance, KnowledgeCandidate, ReviewKnowledge}
use coengram.Memory.Knowledge as Knowledge
use coengram.Memory.Knowledge.{get_candidate, candidate_view, of_tenant}
use coengram.Memory.Reviews.{require_reviewer, review_knowledge, find_candidate, approves_self}
use coengram.Memory.Curated.{
  MayApprove, AllCurated, propose-AllCurated, review-AllCurated, mark_published-AllCurated,
  import_candidate-AllCurated,
}
use coengram.Memory.World.{World, Commands, on_governance, on_erasures, read_governance}
use coengram.Memory.World.Laws.{on_governance_lem}
use coengram.Memory.World.Keeps.{
  Keeps-on_store, Keeps-on_governance, Keeps-on_erasures, Keeps-on_durable, on_governance_missing,
}
use coengram.Memory.Reachable.{Request, perform}
use coengram.Memory.Reachable.Perform.{Kept, perform-Keeps}
use coengram.Memory.Reachable.Reviews.{
  require_reviewer-Keeps, review_operator_knowledge-Keeps, review_erasure-Keeps,
}

module _ {W : Type 0} (self_approval : Option (String → String → Bool)) where
  -- every approved candidate was approved by someone who may
  abbrev pub HasCurators : World W → Type 0
  HasCurators s = (g : Governance) → s.governance ≡ some g → AllCurated self_approval g

  governance-HasCurators :
      {A : Type 0} (m : Exec Governance A)
      → ((g : Governance) → AllCurated self_approval g → AllCurated self_approval (m g).1)
      → Keeps HasCurators (on_governance m)
  governance-HasCurators m k = Keeps-on_governance m (λ s g h found g' same.
      let written : (m g).1 ≡ g' = ground (arith, same) in
      subst (AllCurated self_approval) written (k g (h g found)))

  erasures-HasCurators : {A : Type 0} (m : Exec Erasures A) → Keeps HasCurators (on_erasures m)
  erasures-HasCurators m = Keeps-on_erasures m (λ s e h found. h)

  module _ (session : TenantSession) (c : ReviewKnowledge) (s : World W) where
    require_reviewer_same : (require_reviewer self_approval session c s).1 ≡ s
    require_reviewer_same =
        (require_reviewer-Keeps (λ x. x ≡ s) self_approval session c).after s refl

    -- What a review of knowledge may rely on.
    require_reviewer_ok :
        (g : Governance) (k : KnowledgeCandidate)
        → s.governance ≡ some g
        → get_candidate session.tenant_id c.candidate_id g ≡ some k
        → (require_reviewer self_approval session c s).0 ≡ ok tt
        → (k.proposer_id == session.actor_id && not (approves_self self_approval session)) ≡ false
    unfolding require_reviewer find_candidate read_governance
    require_reviewer_ok g k has found passed = ground (arith, has, found)

    of_this_tenant :
        (g : Governance) (k : KnowledgeCandidate)
        → get_candidate session.tenant_id c.candidate_id g ≡ some k
        → k.tenant_id ≡ session.tenant_id
    unfolding get_candidate
    of_this_tenant g k found = ground (arith, eq_iff k.tenant_id session.tenant_id)

    may_approve :
        (k : KnowledgeCandidate)
        → k.tenant_id ≡ session.tenant_id
        → (k.proposer_id == session.actor_id && not (approves_self self_approval session)) ≡ false
        → MayApprove self_approval k session.actor_id
    may_approve k here checked = elim (Bool-cases (k.proposer_id == session.actor_id)) [
      | inl own ↦ inr (
          inl (
            subst (λ t. holds (λ permits. permits t session.actor_id) self_approval ≡ true)
              (sym here) (ground (arith, own))))
      | inr other ↦ inl (λ same. ground (arith, eq_iff k.proposer_id session.actor_id))
    ]

    review-HasCurators :
        (i : String) (n : ℕ)
        → HasCurators s
        → (require_reviewer self_approval session c s).0 ≡ ok tt
        → HasCurators
            (on_governance (Knowledge.review i n session.tenant_id session.actor_id c) s).1
    review-HasCurators i n h passed = elim (Option-cases s.governance) [
      | inl missing ↦ subst HasCurators (sym (on_governance_missing s _ missing)) h
      | inr (g, has) ↦
          subst HasCurators (sym (ap (λ x. x.1) (on_governance_lem s g has _))) (λ g' same.
            let reviewed = Knowledge.review i n session.tenant_id session.actor_id c g in
            let written : reviewed.1 ≡ g' = ground (arith, same) in
            subst (AllCurated self_approval) written (
              review-AllCurated self_approval i n session.tenant_id session.actor_id c g (h g has)
                (λ k found.
                  may_approve k (of_this_tenant g k found)
                    (require_reviewer_ok g k has found passed))))
    ]

    review_knowledge-HasCurators :
        (i : String) (n : ℕ)
        → HasCurators s
        → HasCurators (review_knowledge self_approval i n session c s).1
    unfolding review_knowledge
    review_knowledge-HasCurators i n h =
        reads_then HasCurators (require_reviewer self_approval session c) _ s require_reviewer_same
          h
          (λ u passed.
            subst HasCurators
              (sym (
                then_pure
                  (on_governance (Knowledge.review i n session.tenant_id session.actor_id c))
                  candidate_view s))
              (review-HasCurators i n h passed))

  kept : Kept self_approval HasCurators
  kept = record {
    durable = λ A m. Keeps-on_durable m (λ s h. h);
    propose = λ i n t proposer c.
        governance-HasCurators _ (propose-AllCurated self_approval i n t proposer c);
    review_knowledge =
        λ i n session c. record { after = λ s h. review_knowledge-HasCurators session c s i n h };
    review_operator_knowledge = λ i n t operator_id c.
        review_operator_knowledge-Keeps _ i n t operator_id c (
          governance-HasCurators _ (λ g h.
            review-AllCurated self_approval i n t (append_text "operator:" operator_id) c g h
              (λ k found. inr (inr (operator_id, refl)))));
    mark_published =
        λ t id. governance-HasCurators _ (mark_published-AllCurated self_approval t id);
    import_candidate = λ n t proposer id claim confidence.
        governance-HasCurators _
          (import_candidate-AllCurated self_approval n t proposer id claim confidence);
    request = λ i n t requester owner c. erasures-HasCurators _;
    review_erasure = λ session c. review_erasure-Keeps _ session c (erasures-HasCurators _);
    mark_completed = λ n t id. erasures-HasCurators _;
    import_tombstone = λ t owner b. erasures-HasCurators _;
  }

  -- Whatever callers ask for, in any order, no candidate becomes approved for publication but by a
  -- reviewer who is not its proposer, whom the policy on self-approval allows to for that Tenant, or
  -- who is an Operator, if that held of the approved candidates before.
  pub perform-HasCurators :
      (commands : Option (Commands W)) (rs : List Request) (s : World W)
      → HasCurators s
      → HasCurators (for_each (perform commands self_approval) rs s).1
  perform-HasCurators commands rs s h =
      (Keeps-for_each (perform commands self_approval) rs (λ r.
          perform-Keeps commands self_approval _ kept r
            (λ A m. Keeps-on_store _ m (λ s store h found. h)))).after
        s h
