-- ===== src/Memory/Curated.antt =====
-- governance.py and memory.py: knowledge is approved by someone other than its proposer, by an
-- Operator, or by a proposer whom the policy allows to.
use Prim.Native.String.{◌++◌ as append_text}
use coengram.Prelude.{
  ℕ, String, string_eq, pair_eq, ◌≡◌, ◌≢◌, refl, sym, subst, ◌⊎◌, inl, inr, Bool, true, Option,
  some, arith, holds, Bool-cases, Option-cases,
}
use coengram.Prelude.Text.{found_id}
use coengram.Dict
use coengram.Dict.Laws.{get-put_cases}
use coengram.Models.Items.{Confidence}
use coengram.Memory.{Governance, KnowledgeCandidate, publishing, ProposeKnowledge, ReviewKnowledge}
use coengram.Memory.Knowledge.{
  propose, review, mark_published, import_candidate, proposed, reviewed, imported, as_published,
  get_candidate, existing, is_submitted,
}

module _ (self_approval : Option (String → String → Bool)) where
  -- who may approve a candidate
  abbrev pub MayApprove : KnowledgeCandidate → String → Type 0
  MayApprove c u =
      (u ≢ c.proposer_id)
      ⊎ (holds (λ permits. permits c.tenant_id u) self_approval ≡ true)
      ⊎ ((operator_id : String) × (u ≡ append_text "operator:" operator_id))

  -- an approved candidate was reviewed by someone who may
  abbrev pub IsCurated : KnowledgeCandidate → Type 0
  IsCurated c = c.status ≡ publishing → (u : String) × (c.reviewed_by ≡ some u) × MayApprove c u

  abbrev pub AllCurated : Governance → Type 0
  AllCurated g =
      (k : String) (c : KnowledgeCandidate) → Dict.get g.candidates k ≡ some c → IsCurated c

  put-AllCurated :
      (g : Governance) (id : String) (c : KnowledgeCandidate)
      → AllCurated g
      → IsCurated c
      → AllCurated (record g { candidates = Dict.put g.candidates id c })
  put-AllCurated g id c h new k d found = elim (get-put_cases g.candidates id k c d found) [
    | inl (same, is) ↦ subst IsCurated is new
    | inr old ↦ h k d old
  ]

  existing_same : (id : String) (g : Governance) → (existing id g).1 ≡ g
  existing_same id g = ground arith

  pub propose-AllCurated :
      (i : String) (n : ℕ) (t proposer : String) (c : ProposeKnowledge) (g : Governance)
      → AllCurated g
      → AllCurated (propose i n t proposer c g).1
  unfolding propose
  propose-AllCurated i n t proposer c g h =
      elim (Option-cases (found_id (Dict.get g.proposal_keys ((t, proposer), c.idempotency_key)))) [
        | inl new ↦
            rw (new, propose) (put-AllCurated g i (proposed i n t proposer c) h (λ s. absurd (cc)))
        | inr (id, there) ↦ rw (there, propose) (subst AllCurated (sym (existing_same id g)) h)
      ]

  -- A review keeps it where the reviewer may approve what is under review.
  pub review-AllCurated :
      (i : String) (n : ℕ) (t reviewer : String) (c : ReviewKnowledge) (g : Governance)
      → AllCurated g
      → ((k : KnowledgeCandidate)
          → get_candidate t c.candidate_id g ≡ some k
          → MayApprove k reviewer)
      → AllCurated (review i n t reviewer c g).1
  unfolding review
  review-AllCurated i n t reviewer c g h may =
      elim (Option-cases (found_id (Dict.get g.review_keys ((t, reviewer), c.idempotency_key)))) [
        | inr (id, there) ↦ rw (there, review) (subst AllCurated (sym (existing_same id g)) h)
        | inl new ↦ elim (Option-cases (get_candidate t c.candidate_id g)) [
          | inl missing ↦ rw (new, missing, review) h
          | inr (k, found) ↦ elim (Bool-cases (is_submitted k.status)) [
            | inl waits ↦
                rw (new, found, waits, review)
                  (put-AllCurated g k.id (reviewed reviewer c k) h
                    (λ s. (reviewer, refl, may k found)))
            | inr other ↦ rw (new, found, other, review) h
          ]
        ]
      ]

  pub mark_published-AllCurated :
      (t id : String) (g : Governance) → AllCurated g → AllCurated (mark_published t id g).1
  unfolding mark_published
  mark_published-AllCurated t id g h = elim (Option-cases (get_candidate t id g)) [
    | inl missing ↦ rw (missing, mark_published) h
    | inr (c, found) ↦
        rw (found, mark_published) (put-AllCurated g id (as_published c) h (λ s. absurd (cc)))
  ]

  pub import_candidate-AllCurated :
      (n : ℕ) (t proposer id claim : String) (confidence : Confidence) (g : Governance)
      → AllCurated g
      → AllCurated (import_candidate n t proposer id claim confidence g).1
  unfolding import_candidate
  import_candidate-AllCurated n t proposer id claim confidence g h =
      elim (Option-cases (get_candidate t id g)) [
        | inl missing ↦
            rw (missing, import_candidate)
              (put-AllCurated g id (imported n t proposer id claim confidence) h (λ s. absurd (cc)))
        | inr (c, found) ↦ rw (found, import_candidate) h
      ]
