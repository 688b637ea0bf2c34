-- ===== src/Tests/Values.antt =====
-- Concrete parameters of the examples: an SQL engine that sorts by insertion, frames that are lists
-- of rows under fixed columns, and a sink that keeps one frame per target.
use mathlib.Core.List.{Perm}
use mathlib.Core.List.Perm
use r64_db_engine.Base.{
  ℕ, ◌≤◌, String, Bool, true, false, none, some, List, [], ◌∷◌, ◌++◌, leb, if◌then◌else◌, arith,
  All, Bool-cases, inl, inr, string_eq,
}
use r64_db_engine.Base.Results.{ok}
use r64_db_engine.Base.Dict
use r64_db_engine.State.{PullRow, OrderBy, IsDescending}
use r64_db_engine.Daemon.{Frames, Sink}

insert_desc : PullRow → List PullRow → List PullRow
insert_desc r [] = r ∷ []
insert_desc r (q ∷ qs) =
    let rest = insert_desc r qs in if leb q.started_at r.started_at then r ∷ q ∷ qs else q ∷ rest

pub sort_desc : List PullRow → List PullRow
sort_desc [] = []
sort_desc (r ∷ rs) = insert_desc r (sort_desc rs)

insert_desc-perm : (r : PullRow) (rs : List PullRow) → Perm (insert_desc r rs) (r ∷ rs)
unfolding insert_desc
insert_desc-perm r [] = Perm.refl (r ∷ [])
insert_desc-perm r (q ∷ qs) = elim (Bool-cases (leb q.started_at r.started_at)) [
  | inl e ↦ rw e (Perm.refl (r ∷ q ∷ qs))
  | inr e ↦ rw e (Perm.trans (Perm.cons q (insert_desc-perm r qs)) (Perm.swap r q qs))
]

pub sort_desc-perm : (rs : List PullRow) → Perm (sort_desc rs) rs
unfolding sort_desc
sort_desc-perm [] = Perm.refl []
sort_desc-perm (r ∷ rs) =
    Perm.trans (insert_desc-perm r (sort_desc rs)) (Perm.cons r (sort_desc-perm rs))

All-insert_desc :
    (n : ℕ) (r : PullRow) (rs : List PullRow)
    → r.started_at ≤ n
    → All (λ q. q.started_at ≤ n) rs
    → All (λ q. q.started_at ≤ n) (insert_desc r rs)
unfolding insert_desc
All-insert_desc n r [] h k = (h, tt)
All-insert_desc n r (q ∷ qs) h k = elim (Bool-cases (leb q.started_at r.started_at)) [
  | inl e ↦ rw e (h, k)
  | inr e ↦ rw e (k.0, All-insert_desc n r qs h k.1)
]

All-le :
    (m n : ℕ) (rs : List PullRow)
    → m ≤ n
    → All (λ q. q.started_at ≤ m) rs
    → All (λ q. q.started_at ≤ n) rs
All-le m n [] h k = tt
All-le m n (q ∷ qs) h k = (omega arith, All-le m n qs h k.1)

insert_desc-IsDescending :
    (r : PullRow) (rs : List PullRow) → IsDescending rs → IsDescending (insert_desc r rs)
unfolding insert_desc
insert_desc-IsDescending r [] h = (tt, tt)
insert_desc-IsDescending r (q ∷ qs) h = elim (Bool-cases (leb q.started_at r.started_at)) [
  | inl e ↦ rw e ((ground arith, All-le q.started_at r.started_at qs (ground arith) h.0), h)
  | inr e ↦
      rw e (All-insert_desc q.started_at r qs (ground arith) h.0, insert_desc-IsDescending r qs h.1)
]

pub sort_desc-IsDescending : (rs : List PullRow) → IsDescending (sort_desc rs)
unfolding sort_desc
sort_desc-IsDescending [] = tt
sort_desc-IsDescending (r ∷ rs) =
    insert_desc-IsDescending r (sort_desc rs) (sort_desc-IsDescending rs)

unfoldable pub insertion_order : OrderBy
unfolding sort_desc insert_desc
insertion_order = record {
  desc = sort_desc;
  desc-perm = sort_desc-perm;
  desc-IsDescending = sort_desc-IsDescending;
}

-- A frame is its rows under one integer column.
abbrev pub row_frames : Frames
row_frames = record {
  Frame = List ℕ;
  dtypes = λ rows. ("id", "Int64") ∷ [];
  concat = λ old new. old ++ new;
}

-- A sink that keeps the last frame of each target.
abbrev pub memory_sink : Bool → Sink (List ℕ)
memory_sink appendable = record {
  Files = Dict.Dict String (List ℕ);
  sink_name = "memory";
  supports_incremental = appendable;
  exists = λ files target. elim (Dict.lookup target files) [ none ↦ false | some _ ↦ true ];
  load = λ files target. Dict.lookup target files;
  write = λ files df target. (ok tt, Dict.insert target df files);
}
