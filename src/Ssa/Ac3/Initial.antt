-- ===== src/Ssa/Ac3/Initial.antt =====
-- The first arcs of the worklist join different sessions.

use ga_scheduler_v.Base.{
  ℕ, ◌≢◌, refl, sym, Option-cases, List, [], ◌∷◌, ◌++◌, Memᴰ, All, All-tabulate, All_get,
  All-append, Apart, Distinct, Distinct-append, Bool-cases, nat_eq, pair_eq, inl, inr,
}
use ga_scheduler_v.Base.Map
use ga_scheduler_v.Base.Set
use ga_scheduler_v.Ssa.Graph.{SessionNode}
use ga_scheduler_v.Ssa.Ac3.{
  Index, Arc, push_session, index_rooms, room_to_sessions, push_for_all, index_lecturers,
  lecturer_to_sessions, is_sibling_session_pair, Pairs, add_pair, room_pair, lecturer_pair,
  pair_with, pair_all, pair_buckets, initial_worklist,
}

abbrev pub id_of : SessionNode → ℕ
id_of s = s.session_id

abbrev pub IsArc : Arc → Type 0
IsArc (a, b) = a ≢ b

-- The ids of a bucket differ, from one another and from those of the sessions still to come.
abbrev IsFresh : List SessionNode → ℕ × List SessionNode → Type 0
IsFresh rest (key, bucket) = Distinct id_of bucket × All (λ s. Apart id_of s bucket) rest

nil-IsFresh : (rest : List SessionNode) (key : ℕ) → IsFresh rest (key, [])
nil-IsFresh rest key = (tt, All-tabulate (λ s. Apart id_of s []) rest (λ s m. tt))

snoc-Apart :
    (s t : SessionNode) (bucket : List SessionNode)
    → Apart id_of t bucket
    → t.session_id ≢ s.session_id
    → Apart id_of t (bucket ++ s ∷ [])
snoc-Apart s t bucket h ne = All-append (λ y. id_of t ≢ id_of y) bucket (s ∷ []) h (ne, tt)

snoc-IsFresh :
    (s : SessionNode) (rest : List SessionNode) (key : ℕ) (bucket : List SessionNode)
    → Apart id_of s rest
    → Apart id_of s bucket
    → IsFresh rest (key, bucket)
    → IsFresh rest (key, bucket ++ s ∷ [])
snoc-IsFresh s rest key bucket new apart (distinct, others) = (
  Distinct-append id_of bucket (s ∷ []) distinct (tt, tt)
      (All-tabulate (λ t. Apart id_of t (s ∷ [])) bucket
        (λ t m. (λ e. All_get (λ y. id_of s ≢ id_of y) bucket apart t m (sym e), tt))),
  All-tabulate (λ t. Apart id_of t (bucket ++ s ∷ [])) rest
      (λ t m.
        snoc-Apart s t bucket (All_get (λ u. Apart id_of u bucket) rest others t m)
          (λ e. All_get (λ y. id_of s ≢ id_of y) rest new t m (sym e))),
)

get_or-IsFresh :
    (rest : List SessionNode) (key : ℕ) (index : Index)
    → All (IsFresh rest) index
    → IsFresh rest (key, Map.get_or key [] index)
get_or-IsFresh rest key index h = elim (Option-cases (Map.get key index)) [
  | inl new ↦ rw (new, Map.get_or) (nil-IsFresh rest key)
  | inr (bucket, old) ↦ rw (old, Map.get_or) (Map.All-get (IsFresh rest) key bucket index h old)
]

index_rooms-IsFresh :
    (index : Index) (sessions : List SessionNode)
    → Distinct id_of sessions
    → All (IsFresh sessions) index
    → All (IsFresh []) (index_rooms index sessions)
unfolding index_rooms push_session
index_rooms-IsFresh index [] distinct h = h
index_rooms-IsFresh index (s ∷ rest) distinct h = elim (Option-cases s.room_id) [
  | inl free ↦ rw (free, index_rooms) (index_rooms-IsFresh index rest distinct.1 older)
  | inr (room, known) ↦
      let bucket = Map.get_or room [] index in
      let (apart, others) = (get_or-IsFresh (s ∷ rest) room index h).1 in
      rw (known, index_rooms)
        (index_rooms-IsFresh (push_session room s index) rest distinct.1 (
          Map.All-set (IsFresh rest) room (bucket ++ s ∷ []) index older (
            snoc-IsFresh s rest room bucket distinct.0 apart
              (get_or-IsFresh rest room index older))))
]
  where
    older : All (IsFresh rest) index
    older = All-tabulate (IsFresh rest) index (λ entry m.
        let fresh = All_get (IsFresh (s ∷ rest)) index h entry m in (fresh.0, fresh.1.1))

-- As `IsFresh`, and `s` is apart from the buckets of its lecturers still to come.
abbrev IsOpen : List ℕ → SessionNode → List SessionNode → ℕ × List SessionNode → Type 0
IsOpen ls s rest (key, bucket) = IsFresh rest (key, bucket) × (Memᴰ key ls → Apart id_of s bucket)

get_or-IsOpen :
    (ls : List ℕ) (s : SessionNode) (rest : List SessionNode) (key : ℕ) (index : Index)
    → All (IsOpen ls s rest) index
    → IsOpen ls s rest (key, Map.get_or key [] index)
get_or-IsOpen ls s rest key index h = elim (Option-cases (Map.get key index)) [
  | inl new ↦ rw (new, Map.get_or) (nil-IsFresh rest key, λ m. tt)
  | inr (bucket, old) ↦ rw (old, Map.get_or) (Map.All-get (IsOpen ls s rest) key bucket index h old)
]

push_for_all-IsFresh :
    (ls : List ℕ) (s : SessionNode) (rest : List SessionNode) (index : Index)
    → Distinct (λ (l : ℕ). l) ls
    → Apart id_of s rest
    → All (IsOpen ls s rest) index
    → All (IsFresh rest) (push_for_all ls s index)
unfolding push_for_all push_session
push_for_all-IsFresh [] s rest index distinct new h =
    All-tabulate (IsFresh rest) index (λ entry m. (All_get (IsOpen [] s rest) index h entry m).0)
push_for_all-IsFresh (l ∷ ls) s rest index distinct new h =
    let bucket = Map.get_or l [] index in
    let (fresh, open') = get_or-IsOpen (l ∷ ls) s rest l index h in
    push_for_all-IsFresh ls s rest (push_session l s index) distinct.1 new (
      Map.All-set (IsOpen ls s rest) l (bucket ++ s ∷ []) index
        (All-tabulate (IsOpen ls s rest) index (λ entry m.
          let (f, o) = All_get (IsOpen (l ∷ ls) s rest) index h entry m in
          (f, λ t. o (Memᴰ.tail t))))
        (
          snoc-IsFresh s rest l bucket new (open' (Memᴰ.head refl)) fresh,
          λ m. absurd (All_get (λ k. l ≢ k) ls distinct.0 l m refl),
        ))

index_lecturers-IsFresh :
    (index : Index) (sessions : List SessionNode)
    → Distinct id_of sessions
    → All (λ s. Distinct (λ (l : ℕ). l) s.lecturer_ids) sessions
    → All (IsFresh sessions) index
    → All (IsFresh []) (index_lecturers index sessions)
unfolding index_lecturers
index_lecturers-IsFresh index [] distinct lecturers h = h
index_lecturers-IsFresh index (s ∷ rest) distinct lecturers h =
    index_lecturers-IsFresh (push_for_all s.lecturer_ids s index) rest distinct.1 lecturers.1 (
      push_for_all-IsFresh s.lecturer_ids s rest index lecturers.0 distinct.0 (
        All-tabulate (IsOpen s.lecturer_ids s rest) index (λ entry m.
          let (d, others) = All_get (IsFresh (s ∷ rest)) index h entry m in
          ((d, others.1), λ _. others.0))))

abbrev Good : Pairs → Type 0
Good p = All IsArc p.worklist

-- A pair function that adds arcs between different sessions only.
abbrev IsCareful : (SessionNode → SessionNode → Pairs → Pairs) → Type 0
IsCareful pair =
    (a b : SessionNode) (p : Pairs) → a.session_id ≢ b.session_id → Good p → Good (pair a b p)

add_pair-Good : (a b : ℕ) (p : Pairs) → a ≢ b → Good p → Good (add_pair a b p)
unfolding add_pair
add_pair-Good a b p ne h = elim (Bool-cases (Set.has (a, b) p.added_pairs)) [
  | inl old ↦ rw old h
  | inr new ↦ rw new (ne, h)
]

room_pair-IsCareful : IsCareful room_pair
unfolding room_pair
room_pair-IsCareful a b p ne h =
    add_pair-Good b.session_id a.session_id (add_pair a.session_id b.session_id p) (λ e. ne (sym e))
      (add_pair-Good a.session_id b.session_id p ne h)

lecturer_pair-IsCareful : IsCareful lecturer_pair
unfolding lecturer_pair
lecturer_pair-IsCareful a b p ne h = elim (Bool-cases (is_sibling_session_pair a b)) [
  | inl sibling ↦ rw sibling h
  | inr stranger ↦ rw stranger (room_pair-IsCareful a b p ne h)
]

module _ (pair : SessionNode → SessionNode → Pairs → Pairs) (careful : IsCareful pair) where
  pair_with-Good :
      (a : SessionNode) (bs : List SessionNode) (p : Pairs)
      → Apart id_of a bs
      → Good p
      → Good (pair_with pair a bs p)
  unfolding pair_with
  pair_with-Good a [] p apart h = h
  pair_with-Good a (b ∷ bs) p apart h =
      pair_with-Good a bs (pair a b p) apart.1 (careful a b p apart.0 h)

  pair_all-Good :
      (bucket : List SessionNode) (p : Pairs)
      → Distinct id_of bucket
      → Good p
      → Good (pair_all pair bucket p)
  unfolding pair_all
  pair_all-Good [] p distinct h = h
  pair_all-Good (a ∷ bucket) p distinct h =
      pair_all-Good bucket (pair_with pair a bucket p) distinct.1
        (pair_with-Good a bucket p distinct.0 h)

  pair_buckets-Good :
      (index : Index) (p : Pairs)
      → All (IsFresh []) index
      → Good p
      → Good (pair_buckets pair index p)
  unfolding pair_buckets
  pair_buckets-Good [] p fresh h = h
  pair_buckets-Good ((key, bucket) ∷ index) p fresh h =
      pair_buckets-Good index (pair_all pair bucket p) fresh.1 (pair_all-Good bucket p fresh.0.0 h)

pub initial_worklist-IsArc :
    (sessions : List SessionNode)
    → Distinct id_of sessions
    → All (λ (s : SessionNode). Distinct (λ (l : ℕ). l) s.lecturer_ids) sessions
    → All IsArc (initial_worklist sessions)
unfolding initial_worklist room_to_sessions lecturer_to_sessions
initial_worklist-IsArc sessions distinct lecturers =
    pair_buckets-Good lecturer_pair lecturer_pair-IsCareful (lecturer_to_sessions sessions) _
      (index_lecturers-IsFresh [] sessions distinct lecturers tt)
      (pair_buckets-Good room_pair room_pair-IsCareful (room_to_sessions sessions) _
        (index_rooms-IsFresh [] sessions distinct tt) tt)
