-- ===== src/LfDequeue/Threads/Slots.antt =====
-- What the places of the buffers hold for the owner and the stealers, and that the steps which
-- replace a buffer keep it.
use parallel_operations_tool.Prelude.{
  ℕ, ◌+◌, ◌-◌, ◌≤◌, ◌<◌, ◌≡◌, sym, subst, arith, update, update_self, update_ne,
}
use parallel_operations_tool.LfDequeue.{RingBuffer, log_initial_size, size, get}
use parallel_operations_tool.LfDequeue.Buffers.{Replaced}
use parallel_operations_tool.LfDequeue.Threads.{
  reclaiming, scanning, noticing, busy, leaving, loading, noting, first_unlinked, Owner, idle,
  pushing, putting, storing, lowered, deciding, restoring, trimming, Stealer, returned, started,
  found, armed, won, System, active,
}
use parallel_operations_tool.LfDequeue.Threads.Bounds.{end_of, limit_of, Knows, Bounds}

module _ {A : Type 0} where
  -- The places that the active buffer of size `n` has left.
  abbrev pub Room : Owner A → ℕ → ℕ → ℕ → Type 0
  Room (pushing x t) bottom top n = bottom - t < n
  Room (putting x t) bottom top n = bottom - t + 1 < n
  Room (storing x) bottom top n = bottom - top + 1 < n
  Room (lowered b) bottom top n = b - top < n
  Room (deciding b t) bottom top n = b - t < n
  Room (restoring b o) bottom top n = b - top < n
  Room (trimming b t o) bottom top n = b - t < n
  Room (idle o) bottom top n = bottom - top < n
  Room (reclaiming o) bottom top n = Room o bottom top n
  Room (scanning k least o) bottom top n = Room o bottom top n
  Room (noticing k least o) bottom top n = Room o bottom top n

  abbrev pub Stored : Owner A → RingBuffer A → ℕ → Type 0
  Stored (storing x) r bottom = get r bottom ≡ x
  Stored (reclaiming o) r bottom = Stored o r bottom
  Stored (scanning k least o) r bottom = Stored o r bottom
  Stored (noticing k least o) r bottom = Stored o r bottom
  Stored _ r bottom = Unit

  -- What a stealer is going to read. Once it has won the exchange, it reads the right element as long
  -- as no other one has been taken from the top.
  abbrev pub Right : System A → Stealer A → Type 0
  Right s (armed t a) =
      (a ≤ s.active_buffer)
      × (s.top ≤ t → (get (s.buffers a) t ≡ s.items (s.numbers t)) × (s.numbers t < s.pushed))
  Right s (won t a j) =
      (a ≤ s.active_buffer) × (j < s.pushed) × (s.top ≤ t + 1 → get (s.buffers a) t ≡ s.items j)
  Right s _ = Unit

  pub Room-suc : (o : Owner A) (bottom top n : ℕ) → Room o bottom top n → Room o bottom (top + 1) n
  Room-suc (idle o) bottom top n h = ground arith
  Room-suc (pushing x t) bottom top n h = ground arith
  Room-suc (putting x t) bottom top n h = ground arith
  Room-suc (storing x) bottom top n h = ground arith
  Room-suc (lowered b) bottom top n h = ground arith
  Room-suc (deciding b t) bottom top n h = ground arith
  Room-suc (restoring b o) bottom top n h = ground arith
  Room-suc (trimming b t o) bottom top n h = ground arith
  Room-suc (reclaiming o) bottom top n h = Room-suc o bottom top n h
  Room-suc (scanning k least o) bottom top n h = Room-suc o bottom top n h
  Room-suc (noticing k least o) bottom top n h = Room-suc o bottom top n h

  pub record Items (s : System A) : Type 0 where
    pub large : log_initial_size ≤ (active s).log_size
    pub room : Room s.owner s.bottom s.top (size (active s))
    pub stored : Stored s.owner (active s) s.bottom
    pub numbered :
        (i : ℕ)
        → s.top ≤ i
        → i < end_of s.owner s.bottom
        → (get (active s) i ≡ s.items (s.numbers i)) × (s.numbers i < s.pushed)
    pub right : (i : ℕ) → Right s (s.stealers i)

  module _ {s : System A} (inv : Bounds s) (it : Items s) where
    -- What holds of the owner where it stands.
    pub Knows-at : {o : Owner A} → s.owner ≡ o → Knows o s.bottom s.top
    Knows-at e = subst (λ o. Knows o s.bottom s.top) e inv.knows

    pub within-at : {o : Owner A} → s.owner ≡ o → s.top ≤ limit_of o s.bottom
    within-at e = subst (λ o. s.top ≤ limit_of o s.bottom) e inv.within

    pub Room-at : {o : Owner A} → s.owner ≡ o → Room o s.bottom s.top (size (active s))
    Room-at e = subst (λ o. Room o s.bottom s.top (size (active s))) e it.room

    pub numbered-at :
        {o : Owner A}
        → s.owner ≡ o
        → (i : ℕ) → s.top ≤ i
        → i < end_of o s.bottom
        → (get (active s) i ≡ s.items (s.numbers i)) × (s.numbers i < s.pushed)
    numbered-at e i lo hi = it.numbered i lo (subst (λ o. i < end_of o s.bottom) (sym e) hi)

    -- A new buffer leaves the others as they are.
    kept-replace :
        (r : RingBuffer A) (a : ℕ)
        → a ≤ s.active_buffer
        → update s.buffers (s.active_buffer + 1) r a ≡ s.buffers a
    kept-replace r a h = update_ne s.buffers (s.active_buffer + 1) r a (omega arith)

    pub replace-Items :
        (r : RingBuffer A) (b t : ℕ) (o : Owner A)
        → Replaced (active s) r b t
        → t ≤ s.top
        → end_of o s.bottom ≤ b
        → end_of o s.bottom ≤ end_of s.owner s.bottom
        → Room o s.bottom s.top (size r)
        → Stored o r s.bottom
        → Items (record s {
          buffers = update s.buffers (s.active_buffer + 1) r;
          active_buffer = s.active_buffer + 1;
          unlinked = first_unlinked s.unlinked s.active_buffer;
          owner = o;
        })
    replace-Items r b t o new le within less room stored =
        let here = update_self s.buffers (s.active_buffer + 1) r in
        record {
          large = rw here new.large;
          room = rw here room;
          stored = rw here stored;
          numbered = λ i lo hi.
              rw (here, new.kept i (omega arith) (omega arith)) (it.numbered i lo (omega arith));
          right = λ i. replaced (s.stealers i) (it.right i);
        }
      where
        replaced :
            (p : Stealer A)
            → Right s p
            → Right
                (record s {
                  buffers = update s.buffers (s.active_buffer + 1) r;
                  active_buffer = s.active_buffer + 1;
                  unlinked = first_unlinked s.unlinked s.active_buffer;
                  owner = o;
                })
                p
        replaced (returned v) h = tt
        replaced busy h = tt
        replaced (leaving v) h = tt
        replaced (loading v) h = tt
        replaced (noting a v) h = tt
        replaced (started u) h = tt
        replaced (found u) h = tt
        replaced (armed u a) (le, h) = rw (kept-replace r a le) (omega arith, h)
        replaced (won u a j) (le, lt, h) = rw (kept-replace r a le) (omega arith, lt, h)
