-- ===== src/Storage/Once.antt =====
-- A key of the seen cache is new once.
use rfmpd.Base.{
  ==_refl, Bool, Bool-cases, Bytes, List, Option, false, inl, inr, none, refl, some, true, ℕ, ◌∷◌,
  ◌≡◌,
}
use rfmpd.Text.{text_eq_refl}
use rfmpd.Storage.{Database, mark_seen, mark_seen_if_new}
use rfmpd.Storage.Seen.{SeenRow, seen_row, is_seen, same_idx, replace_seen, drop_key}

same_idx_refl : (idx : Option ℕ) → same_idx idx idx ≡ true
same_idx_refl none = refl
same_idx_refl (some i) = ==_refl i

is_seen-cons :
    (id : Bytes) (idx : Option ℕ) (now : ℕ) (b : Bool) (rs : List SeenRow)
    → is_seen id idx (seen_row now id idx b ∷ rs) ≡ true
unfolding is_seen
is_seen-cons id idx now b rs = rw (text_eq_refl id, same_idx_refl idx)

pub mark_seen_if_new_known :
    (now : ℕ) (id : Bytes) (idx : Option ℕ) (db : Database)
    → is_seen id idx db.seen_cache ≡ true
    → mark_seen_if_new now id idx db ≡ (db, false)
unfolding mark_seen_if_new
mark_seen_if_new_known now id idx db e = rw e

pub mark_seen_if_new_fresh :
    (now : ℕ) (id : Bytes) (idx : Option ℕ) (db : Database)
    → is_seen id idx db.seen_cache ≡ false
    → mark_seen_if_new now id idx db
      ≡ (record db { seen_cache = seen_row now id idx false ∷ db.seen_cache }, true)
unfolding mark_seen_if_new
mark_seen_if_new_fresh now id idx db e = rw e

-- Whatever the database holds, the key is in the seen cache after `MarkSeenIfNew`.
pub is_seen-mark_seen_if_new :
    (now : ℕ) (id : Bytes) (idx : Option ℕ) (db : Database)
    → is_seen id idx (mark_seen_if_new now id idx db).0.seen_cache ≡ true
unfolding mark_seen_if_new
is_seen-mark_seen_if_new now id idx db = elim (Bool-cases (is_seen id idx db.seen_cache)) [
  | inl e ↦ rw (e, e)
  | inr e ↦ rw e (is_seen-cons id idx now false db.seen_cache)
]

-- `MarkSeen` also leaves the key in the seen cache.
pub is_seen-mark_seen :
    (now : ℕ) (id : Bytes) (idx : Option ℕ) (b : Bool) (db : Database)
    → is_seen id idx (mark_seen now id idx b db).seen_cache ≡ true
unfolding mark_seen replace_seen
is_seen-mark_seen now id idx b db = is_seen-cons id idx now b (drop_key id idx db.seen_cache)
