-- ===== src/Ga/Repair/Sessions.antt =====
-- ga/repair.ts: the sessions of a gene as a whole, seen against what the candidate allows.

use ga_scheduler_v.Base.{
  ℕ, suc, ◌≡◌, refl, ap, ◌∙◌, false, Option, none, some, List, [], ◌∷◌, All, nat_eq, pair_eq,
}
use ga_scheduler_v.Base.Map.{Map}
use ga_scheduler_v.Base.Set
use ga_scheduler_v.Base.Set.{Set}
use ga_scheduler_v.Types.{Room, PreGaCandidate, GeneSession, GeneKind, fixed, flexible}
use ga_scheduler_v.Slots.{SlotLookup}
use ga_scheduler_v.Ga.Draws.{Draws, part}
use ga_scheduler_v.Ga.Valid.{IsSession, IsLookup}
use ga_scheduler_v.Ga.Repair.{ConflictIndex}
use ga_scheduler_v.Ga.Repair.Block.{repair_session_as_block}
use ga_scheduler_v.Ga.Repair.Valid.{repair_session_as_block-IsSession}
use ga_scheduler_v.Ga.Repair.Whole.{
  repair_sessions, repair_sessions_greedily, repair_collisions, repair_gene_sessions,
}
use ga_scheduler_v.Ga.Repair.Filling.{repair_session_greedy-IsSession}
use ga_scheduler_v.Ga.Repair.Upgrading.{Keep, keep_room-Keep, repair_capacity_shortfall-Keep}

module _ (c : PreGaCandidate) where
  module _ (index : ConflictIndex) where
    repair_sessions_greedily-Keep :
        (d : Draws) (i : ℕ) (sessions : List GeneSession)
        → All (IsSession c) sessions
        → Keep c sessions (repair_sessions_greedily c index d i sessions)
    unfolding repair_sessions_greedily
    repair_sessions_greedily-Keep d i [] all = (refl, tt)
    repair_sessions_greedily-Keep d i (s ∷ rest) all =
        let (n, more) = repair_sessions_greedily-Keep d (suc i) rest all.1 in
        (ap suc n, (repair_session_greedy-IsSession s index c all.0 (part i d), more))

    module _ (kind : GeneKind) (flex : kind ≡ flexible → c.is_fixed_room ≡ false) where
      repair_sessions-Keep :
          (d : Draws) (i : ℕ) (lookup : SlotLookup) (used : Set ℕ) (sessions : List GeneSession)
          → IsLookup (some lookup)
          → All (IsSession c) sessions
          → Keep c sessions (repair_sessions c index d i kind lookup used sessions)
      unfolding repair_sessions
      repair_sessions-Keep d i lookup used [] known all = (refl, tt)
      repair_sessions-Keep d i lookup used (s ∷ rest) known all =
          let fine =
            repair_session_as_block-IsSession c index used s all.0 kind flex lookup known
              (part i d) in
          let used' =
            Set.add_all used
              (repair_session_as_block c index used s (part i d) kind lookup).time_slot_ids in
          let (n, more) = repair_sessions-Keep d (suc i) lookup used' rest known all.1 in
          (ap suc n, (fine, more))

  module _ (index : ConflictIndex) where
    repair_collisions-Keep :
        (d : Draws) (lookup : Option SlotLookup) (kind : GeneKind) (sessions : List GeneSession)
        → (kind ≡ flexible → c.is_fixed_room ≡ false)
        → IsLookup lookup
        → All (IsSession c) sessions
        → Keep c sessions (repair_collisions c index d lookup kind sessions)
    unfolding repair_collisions
    repair_collisions-Keep d none fixed sessions flex known all = (refl, all)
    repair_collisions-Keep d none flexible sessions flex known all =
        repair_sessions_greedily-Keep index d 0 sessions all
    repair_collisions-Keep d (some lookup) kind sessions flex known all =
        keep_room-Keep c kind sessions (repair_sessions c index d 0 kind lookup [] sessions) all
          (repair_sessions-Keep index kind flex d 0 lookup [] sessions known all)

    pub repair_gene_sessions-Keep :
        (d : Draws) (lookup : Option SlotLookup) (rooms : Option (Map ℕ Room)) (kind : GeneKind)
        (sessions : List GeneSession)
        → (kind ≡ flexible → c.is_fixed_room ≡ false)
        → IsLookup lookup
        → All (IsSession c) sessions
        → Keep c sessions (repair_gene_sessions c index d lookup rooms kind sessions)
    unfolding repair_gene_sessions
    repair_gene_sessions-Keep d lookup none kind sessions flex known all =
        repair_collisions-Keep d lookup kind sessions flex known all
    repair_gene_sessions-Keep d lookup (some rooms) kind sessions flex known all =
        let (n, fine) = repair_collisions-Keep d lookup kind sessions flex known all in
        let (m, more) =
          repair_capacity_shortfall-Keep c kind index rooms
            (repair_collisions c index d lookup kind sessions) flex fine in
        (m ∙ n, more)
