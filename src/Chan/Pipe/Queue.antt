-- ===== src/Chan/Pipe/Queue.antt =====
-- A channel with a buffer keeps its invariant, and its blocks are a queue.
use cocoyaxi.Base.{ℕ, ◌<◌, true, false, List, [], if◌then◌else◌, ◌≡◌, ◌≢◌}
use cocoyaxi.Chan.Waiters.{reader, writer}
use cocoyaxi.Chan.Waiters.Kinds.{AreAll}
use cocoyaxi.Chan.Pipe.{Pipe}
use cocoyaxi.Chan.Pipe.Ring.{dist, ring}

module _ {V : Type 0} where
  abbrev pub count : Pipe V → ℕ
  count t = if t.full then t.size else dist t.size t.rx t.wx

  -- The blocks that are to be read, in order.
  abbrev pub contents : Pipe V → List V
  contents t = ring t.size t.cells t.rx (count t)

  -- Readers wait only on an empty buffer, and writers only on a full one.
  pub record IsFormed (t : Pipe V) : Type 0 where
    pub reads_in : t.rx < t.size
    pub writes_in : t.wx < t.size
    pub meets : t.full ≡ true → t.rx ≡ t.wx
    pub nobody : t.rx ≢ t.wx → t.wq ≡ []
    pub readers : t.full ≡ false → AreAll reader t.wq
    pub writers : t.full ≡ true → AreAll writer t.wq
