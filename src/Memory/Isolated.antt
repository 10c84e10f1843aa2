-- ===== src/Memory/Isolated.antt =====
-- memory.py: a request for one Tenant leaves the memory of every other Tenant alone.
use text.Mathlib.TextEquality.{eq_iff}
use coengram.Prelude.{String, string_eq, ◌≡◌, ◌≢◌, refl, Bool, Option, arith}
use coengram.Dict
use coengram.Dict.Laws.{get-put}
use coengram.Exec.{Exec}
use coengram.Exec.Keeps.{Keeps}
use coengram.Memory.{TenantStore, Erasures, Governance}
use coengram.Memory.World.{World, Commands, on_store, on_governance, on_erasures, on_durable}
use coengram.Memory.World.Keeps.{
  Keeps-on_store, Keeps-on_governance, Keeps-on_erasures, Keeps-on_durable,
}
use coengram.Memory.Reachable.{Request, tenant_of, perform}
use coengram.Memory.Reachable.Perform.{Kept, perform-Keeps}
use coengram.Memory.Reachable.Reviews.{
  review_knowledge-Keeps, review_erasure-Keeps, review_operator_knowledge-Keeps,
}

-- the store of a Tenant is `o`
abbrev pub Stored : {W : Type 0} → String → Option TenantStore → World W → Type 0
Stored t o s = Dict.get s.stores t ≡ o

module _ {W : Type 0} (mine theirs : String) (o : Option TenantStore) (apart : mine ≢ theirs) where
  store-Stored :
      (A : Type 0) (m : Exec TenantStore A)
      → Keeps {S = World W} (Stored theirs o) (on_store mine m)
  store-Stored A m = Keeps-on_store mine m (λ s store h found.
      ground (arith, get-put s.stores mine theirs (m store).1, eq_iff mine theirs))

  durable-Stored : (A : Type 0) (m : Exec W A) → Keeps (Stored theirs o) (on_durable m)
  durable-Stored A m = Keeps-on_durable m (λ s h. h)

  governance-Stored :
      (A : Type 0) (m : Exec Governance A) → Keeps {S = World W} (Stored theirs o) (on_governance m)
  governance-Stored A m = Keeps-on_governance m (λ s g h found. h)

  erasures-Stored :
      (A : Type 0) (m : Exec Erasures A) → Keeps {S = World W} (Stored theirs o) (on_erasures m)
  erasures-Stored A m = Keeps-on_erasures m (λ s e h found. h)

  kept :
      (self_approval : Option (String → String → Bool))
      → Kept {W = W} self_approval (Stored theirs o)
  kept self_approval = record {
    durable = durable-Stored;
    propose = λ i n t proposer c. governance-Stored _ _;
    review_knowledge = λ i n session c.
        review_knowledge-Keeps _ i n session self_approval c (governance-Stored _ _);
    review_operator_knowledge = λ i n t operator_id c.
        review_operator_knowledge-Keeps _ i n t operator_id c (governance-Stored _ _);
    mark_published = λ t id. governance-Stored _ _;
    import_candidate = λ n t proposer id claim confidence. governance-Stored _ _;
    request = λ i n t requester owner c. erasures-Stored _ _;
    review_erasure = λ session c. review_erasure-Keeps _ session c (erasures-Stored _ _);
    mark_completed = λ n t id. erasures-Stored _ _;
    import_tombstone = λ t owner b. erasures-Stored _ _;
  }

-- Whatever a caller asks for one Tenant, and whether it is done or refused, the Memory Store of every
-- other Tenant stays as it was, with its items and its keys.
pub perform-stores :
    {W : Type 0} (commands : Option (Commands W)) (self_approval : Option (String → String → Bool))
    (r : Request) (theirs : String) (s : World W)
    → tenant_of r ≢ theirs
    → Dict.get (perform commands self_approval r s).1.stores theirs ≡ Dict.get s.stores theirs
perform-stores commands self_approval r theirs s apart =
    (perform-Keeps commands self_approval _
        (kept (tenant_of r) theirs (Dict.get s.stores theirs) apart self_approval) r
        (store-Stored (tenant_of r) theirs (Dict.get s.stores theirs) apart)).after
      s refl
