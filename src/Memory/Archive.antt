-- ===== src/Memory/Archive.antt =====
-- archive.py and memory.py: the order of an archive's items and the checks on its records. A record
-- that was decoded is given; the order is by recursion on fuel, one more than the items.
pub mod Order
pub mod Depth
pub mod Json
pub mod Valid
pub mod Codec
pub mod Decode
pub mod Lines
pub mod Records
pub mod Checked
pub mod RoundTrip
use coengram.Prelude.{
  ℕ, zero, suc, String, ◌==◌, string_eq, nat_eq, option_eq, Bool, true, false, not, ◌&&◌, ◌||◌,
  Option, none, some, is_some, List, [], ◌∷◌, ◌++◌, map, contains, any, length, without, holds,
  if◌then◌else◌,
}
use coengram.Dict
use coengram.Dict.{Dict}
use coengram.Exec.{
  Result, ok, err, Exec, Nothing, value_error, runtime_error, raise_if, for_each, pure, ◌>>=◌, ◌>>◌,
}
use coengram.Models.Items.{MemoryItem, is_private, is_superseded, memory_kind_eq, state_eq}
use coengram.Memory.{ErasureTombstone, KnowledgeCandidateView}

pub record DecodedArchive : Type 0 where
  pub memory_items : List MemoryItem
  pub governance_candidates : List KnowledgeCandidateView
  pub erasure_tombstones : List ErasureTombstone

pub record ArchiveImportResult : Type 0 where
  pub imported : ℕ
  pub skipped : ℕ
  pub candidates : List KnowledgeCandidateView
  pub erasure_tombstones : ℕ
  pub governance_records : ℕ

unfoldable pub put_all : List MemoryItem → Dict String MemoryItem → Dict String MemoryItem
put_all [] d = d
put_all (x ∷ xs) d = put_all xs (Dict.put d x.id x)

-- `{item.id: item for item in items}`
abbrev pub by_id : List MemoryItem → Dict String MemoryItem
by_id items = put_all items Dict.empty

-- the ancestor of an item, where the archive holds it
abbrev pub parent_of : Dict String MemoryItem → MemoryItem → Option MemoryItem
parent_of index item = elim item.supersedes_id [ none ↦ none | some id ↦ Dict.get index id ]

-- what `visit` shares with the loop around it
pub record Visit : Type 0 where
  pub ordered : List MemoryItem
  pub permanent : List String
  pub visiting : List String

abbrev pub enter : MemoryItem → Visit → Visit
enter item v = record v { visiting = item.id ∷ v.visiting }

abbrev pub leave : MemoryItem → Visit → Visit
leave item v = record {
  ordered = v.ordered ++ item ∷ [];
  permanent = item.id ∷ v.permanent;
  visiting = without item.id v.visiting;
}

-- what follows the visit of the ancestor; `none` means that the fuel ran out
abbrev pub finish : MemoryItem → Option (Result Visit) → Option (Result Visit)
finish item none = none
finish item (some (err x)) = some (err x)
finish item (some (ok v)) = some (ok (leave item v))

unfoldable pub visit : ℕ → Dict String MemoryItem → MemoryItem → Visit → Option (Result Visit)
unfolding contains without
visit zero index item v = none
visit (suc fuel) index item v =
    let above : Option (Result Visit) = elim (parent_of index item) [
      | none ↦ some (ok (enter item v))
      | some parent ↦ visit fuel index parent (enter item v)
    ] in
    if contains item.id v.permanent
    then some (ok v)
    else if contains item.id v.visiting
    then some (err (value_error "Memory Archive correction history contains a cycle"))
    else finish item above

unfoldable pub visit_all :
    ℕ → Dict String MemoryItem → List MemoryItem → Visit → Option (Result Visit)
unfolding visit
visit_all fuel index [] v = some (ok v)
visit_all fuel index (x ∷ xs) v = elim (visit fuel index x v) [
  | none ↦ none
  | some (err e) ↦ some (err e)
  | some (ok v') ↦ visit_all fuel index xs v'
]

abbrev pub unvisited : Visit
unvisited = record { ordered = []; permanent = []; visiting = [] }

abbrev pub ordered_of : Option (Result Visit) → Option (Result (List MemoryItem))
ordered_of none = none
ordered_of (some (err e)) = some (err e)
ordered_of (some (ok v)) = some (ok v.ordered)

unfoldable pub order_correction_history : List MemoryItem → Option (Result (List MemoryItem))
unfolding visit_all put_all
order_correction_history items =
    ordered_of (visit_all (suc (length items)) (by_id items) items unvisited)

unfoldable pub parent_ids : List MemoryItem → List String
parent_ids [] = []
parent_ids (x ∷ xs) =
    let rest = parent_ids xs in elim x.supersedes_id [ none ↦ rest | some id ↦ id ∷ rest ]

-- `len(xs) != len(set(xs))`
unfoldable pub repeats : List String → Bool
unfolding contains
repeats [] = false
repeats (x ∷ xs) = contains x xs || repeats xs

abbrev not_superseded : Option MemoryItem → Bool
not_superseded none = false
not_superseded (some parent) = not (is_superseded parent.state)

module _ {S : Type 0} where
  -- the body of the loop in `_validate_private_archive`
  unfoldable pub validate_correction :
      Dict String MemoryItem → List String → MemoryItem → Exec S Nothing
  validate_correction index erased_ids item = elim item.supersedes_id [
    | none ↦ pure tt
    | some id ↦ do
      raise_if (id == item.id) (value_error "Memory Archive correction cannot supersede itself")
      let parent = Dict.get index id
      raise_if (not (is_some parent) && not (contains id erased_ids))
          (value_error "Memory Archive correction history is incomplete")
      raise_if (not_superseded parent)
          (value_error "Memory Archive correction ancestor is not superseded")
  ]

  -- `_validate_private_archive`
  unfoldable pub validate_private_archive : List MemoryItem → List ErasureTombstone → Exec S Nothing
  unfolding validate_correction repeats parent_ids put_all any for_each
  validate_private_archive items tombstones = do
    raise_if (any (λ item. not (is_private item.scope)) items)
        (value_error "Private Memory Archive contains a non-private item")
    raise_if (repeats (parent_ids items))
        (value_error "Memory Archive correction history branches from one ancestor")
    for_each (validate_correction (by_id items) (map (λ t. t.memory_id) tombstones)) items

  -- `order_correction_history` as a statement; too deep a call is a `RecursionError`
  unfoldable pub ordered_history : List MemoryItem → Exec S (List MemoryItem)
  unfolding order_correction_history
  ordered_history items s = elim (order_correction_history items) [
    | none ↦ (err (runtime_error "maximum recursion depth exceeded"), s)
    | some r ↦ (r, s)
  ]

-- `_same_archived_memory`
unfoldable pub same_archived_memory : MemoryItem → MemoryItem → Bool
same_archived_memory a b =
    a.id == b.id
    && a.content == b.content
    && a.kind == b.kind
    && a.confidence == b.confidence
    && a.state == b.state
    && a.supersedes_id == b.supersedes_id
    && a.provenance.actor_id == b.provenance.actor_id
    && a.created_at == b.created_at
