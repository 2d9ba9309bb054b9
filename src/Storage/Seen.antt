-- ===== src/Storage/Seen.antt =====
-- The tables `seen_cache` and `fragments`.
use rfmpd.Base.{
  Bool, Bytes, List, Option, [], false, if◌then◌else◌, ltb, none, some, true, ℕ, ◌&&◌, ◌+◌, ◌==◌,
  ◌||◌, ◌∷◌,
}
use rfmpd.Text.{text_eq}

-- The fragment index is -1 for a whole message: `none` here.
pub record SeenRow : Type 0 where
  pub message_id : Bytes
  pub fragment_idx : Option ℕ
  pub seen_at : ℕ
  pub rebroadcast : Bool

abbrev pub seen_row : ℕ → Bytes → Option ℕ → Bool → SeenRow
seen_row now id idx rebroadcast = record {
  message_id = id;
  fragment_idx = idx;
  seen_at = now;
  rebroadcast = rebroadcast;
}

abbrev pub same_idx : Option ℕ → Option ℕ → Bool
same_idx none none = true
same_idx (some i) (some j) = i == j
same_idx _ _ = false

abbrev pub is_key : Bytes → Option ℕ → SeenRow → Bool
is_key id idx r = text_eq r.message_id id && same_idx r.fragment_idx idx

unfoldable pub is_seen : Bytes → Option ℕ → List SeenRow → Bool
is_seen id idx [] = false
is_seen id idx (r ∷ rs) = is_key id idx r || is_seen id idx rs

unfoldable pub drop_key : Bytes → Option ℕ → List SeenRow → List SeenRow
drop_key id idx [] = []
drop_key id idx (r ∷ rs) = if is_key id idx r then drop_key id idx rs else r ∷ drop_key id idx rs

-- `INSERT OR REPLACE`
unfoldable pub replace_seen : SeenRow → List SeenRow → List SeenRow
replace_seen r rs = r ∷ drop_key r.message_id r.fragment_idx rs

unfoldable pub drop_old_seen : ℕ → ℕ → List SeenRow → List SeenRow
drop_old_seen now ttl [] = []
drop_old_seen now ttl (r ∷ rs) =
    let rest = drop_old_seen now ttl rs in if ltb (r.seen_at + ttl) now then rest else r ∷ rest

pub record FragmentRow : Type 0 where
  pub message_id : Bytes
  pub idx : ℕ
  pub total : ℕ
  pub payload : Bytes
  pub received_at : ℕ

unfoldable pub has_fragment : FragmentRow → List FragmentRow → Bool
has_fragment f [] = false
has_fragment f (g ∷ gs) = (text_eq g.message_id f.message_id && g.idx == f.idx) || has_fragment f gs

-- `INSERT OR IGNORE`
unfoldable pub insert_fragment : FragmentRow → List FragmentRow → List FragmentRow
insert_fragment f gs = if has_fragment f gs then gs else f ∷ gs

unfoldable pub drop_old_fragments : ℕ → ℕ → List FragmentRow → List FragmentRow
drop_old_fragments now max_age [] = []
drop_old_fragments now max_age (f ∷ fs) =
    let rest = drop_old_fragments now max_age fs in
    if ltb (f.received_at + max_age) now then rest else f ∷ rest
