-- ===== src/LfDequeue/Threads/Bounds.antt =====
-- Where the indices of the owner and of the stealers stand.
use parallel_operations_tool.Prelude.{ℕ, ◌+◌, ◌-◌, ◌≤◌, ◌<◌, ◌≡◌, ◌⊎◌, leb, if◌then◌else◌, arith}
use parallel_operations_tool.LfDequeue.Threads.{
  reclaiming, scanning, noticing, keep_buffers, scan, pass_idle, notice, lower_least, delete,
  register, load_first, mark_idle, load_last, note, Owner, idle, pushing, putting, storing, lowered,
  deciding, restoring, trimming, Stealer, started, found, armed, won, System, Step, load_top,
  enlarge, has_room, put, publish, lower, read_top, empty, win, lose, restore, take, trim, keep,
  begin, find, find_nothing, load_buffer, steal, fail, read, Reach, start, later,
}

module _ {A : Type 0} where
  -- The end of the elements, for an owner and its `bottom`.
  abbrev pub end_of : Owner A → ℕ → ℕ
  end_of (lowered b) bottom = b
  end_of (deciding b t) bottom = b
  end_of (restoring b o) bottom = b
  end_of (reclaiming o) bottom = end_of o bottom
  end_of (scanning k least o) bottom = end_of o bottom
  end_of (noticing k least o) bottom = end_of o bottom
  end_of _ bottom = bottom

  -- The elements below it are taken by an exchange only.
  abbrev pub limit_of : Owner A → ℕ → ℕ
  limit_of (lowered b) bottom = b
  limit_of (deciding b t) bottom = if leb (t + 2) b then b - 1 else b
  limit_of (restoring b o) bottom = b
  limit_of (reclaiming o) bottom = limit_of o bottom
  limit_of (scanning k least o) bottom = limit_of o bottom
  limit_of (noticing k least o) bottom = limit_of o bottom
  limit_of _ bottom = bottom

  -- What the owner knows, where `top` is `now`.
  abbrev pub Knows : Owner A → ℕ → ℕ → Type 0
  Knows (pushing x t) bottom now = t ≤ now
  Knows (putting x t) bottom now = t ≤ now
  Knows (lowered b) bottom now = bottom ≡ b - 1
  Knows (deciding b t) bottom now = (bottom ≡ b - 1) × (t ≤ now)
  Knows (restoring b o) bottom now = bottom ≡ b - 1
  Knows (trimming b t o) bottom now = (bottom ≡ b - 1) × (t ≤ now) × (t + 1 < b)
  Knows (reclaiming o) bottom now = Knows o bottom now
  Knows (scanning k least o) bottom now = Knows o bottom now
  Knows (noticing k least o) bottom now = Knows o bottom now
  Knows _ bottom now = Unit

  abbrev pub Aims : Stealer A → ℕ → ℕ → Type 0
  Aims (started t) limit now = t ≤ now
  Aims (found t) limit now = (t ≤ now) × ((t < now) ⊎ (t < limit))
  Aims (armed t a) limit now = (t ≤ now) × ((t < now) ⊎ (t < limit))
  Aims (won t a j) limit now = t < now
  Aims _ limit now = Unit

  pub record Bounds (s : System A) : Type 0 where
    pub within : s.top ≤ limit_of s.owner s.bottom
    pub knows : Knows s.owner s.bottom s.top
    pub aims : (i : ℕ) → Aims (s.stealers i) (limit_of s.owner s.bottom) s.top

  pub bottom-le-limit :
      (o : Owner A) (bottom now : ℕ) → Knows o bottom now → bottom ≤ limit_of o bottom
  bottom-le-limit (idle o) bottom now h = ground arith
  bottom-le-limit (pushing x t) bottom now h = ground arith
  bottom-le-limit (putting x t) bottom now h = ground arith
  bottom-le-limit (storing x) bottom now h = ground arith
  bottom-le-limit (lowered b) bottom now h = ground arith
  bottom-le-limit (deciding b t) bottom now h = ground arith
  bottom-le-limit (restoring b o) bottom now h = ground arith
  bottom-le-limit (trimming b t o) bottom now h = ground arith
  bottom-le-limit (reclaiming o) bottom now h = bottom-le-limit o bottom now h
  bottom-le-limit (scanning k least o) bottom now h = bottom-le-limit o bottom now h
  bottom-le-limit (noticing k least o) bottom now h = bottom-le-limit o bottom now h

  pub limit-le-end : (o : Owner A) (bottom : ℕ) → limit_of o bottom ≤ end_of o bottom
  limit-le-end (idle o) bottom = ground arith
  limit-le-end (pushing x t) bottom = ground arith
  limit-le-end (putting x t) bottom = ground arith
  limit-le-end (storing x) bottom = ground arith
  limit-le-end (lowered b) bottom = ground arith
  limit-le-end (deciding b t) bottom = ground arith
  limit-le-end (restoring b o) bottom = ground arith
  limit-le-end (trimming b t o) bottom = ground arith
  limit-le-end (reclaiming o) bottom = limit-le-end o bottom
  limit-le-end (scanning k least o) bottom = limit-le-end o bottom
  limit-le-end (noticing k least o) bottom = limit-le-end o bottom

  -- Another element is taken from the top.
  Knows-suc : (o : Owner A) (bottom now : ℕ) → Knows o bottom now → Knows o bottom (now + 1)
  Knows-suc (idle o) bottom now h = ground arith
  Knows-suc (pushing x t) bottom now h = ground arith
  Knows-suc (putting x t) bottom now h = ground arith
  Knows-suc (storing x) bottom now h = ground arith
  Knows-suc (lowered b) bottom now h = ground arith
  Knows-suc (deciding b t) bottom now h = ground arith
  Knows-suc (restoring b o) bottom now h = ground arith
  Knows-suc (trimming b t o) bottom now h = ground arith
  Knows-suc (reclaiming o) bottom now h = Knows-suc o bottom now h
  Knows-suc (scanning k least o) bottom now h = Knows-suc o bottom now h
  Knows-suc (noticing k least o) bottom now h = Knows-suc o bottom now h

  Step-Bounds : (blank : A) {s t : System A} → Bounds s → Step blank s t → Bounds t
  Step-Bounds blank inv (load_top x o e) = grind arith
  Step-Bounds blank inv (enlarge x t e h) = grind arith
  Step-Bounds blank inv (has_room x t e h) = grind arith
  Step-Bounds blank inv (put x t e) = grind arith
  Step-Bounds blank inv (publish x e) = grind arith
  Step-Bounds blank inv (lower o e) = grind arith
  Step-Bounds blank inv (read_top b e) = grind arith
  Step-Bounds blank inv (empty b t e h) = grind arith
  Step-Bounds blank inv (win b t e h same) = grind arith
  Step-Bounds blank inv (lose b t e h other) = grind arith
  Step-Bounds blank inv (restore b o e) = grind arith
  Step-Bounds blank inv (take b t e h) = grind arith
  Step-Bounds blank inv (trim b t o e h l) = grind arith
  Step-Bounds blank inv (keep b t o e h) = grind arith
  Step-Bounds blank inv (begin i o e known) = grind arith
  Step-Bounds blank {s} inv (find i t e h) =
      grind (arith, bottom-le-limit s.owner s.bottom s.top inv.knows)
  Step-Bounds blank inv (find_nothing i t e h) = grind arith
  Step-Bounds blank inv (load_buffer i t e) = grind arith
  Step-Bounds blank {s} inv (steal i t a e same) =
      grind (arith, Knows-suc s.owner s.bottom s.top inv.knows)
  Step-Bounds blank inv (fail i t a e other) = grind arith
  Step-Bounds blank inv (read i t a j e) = grind arith
  Step-Bounds blank inv (keep_buffers o e none_left) = grind arith
  Step-Bounds blank inv (scan u o e some_left) = grind arith
  Step-Bounds blank inv (pass_idle k least o e idle_there) = grind arith
  Step-Bounds blank inv (notice k least o e busy_there) = grind arith
  Step-Bounds blank inv (lower_least k least o e) = grind arith
  Step-Bounds blank inv (delete u least o e some_left) = grind arith
  Step-Bounds blank inv register = grind arith
  Step-Bounds blank inv (load_first i e) = grind arith
  Step-Bounds blank inv (mark_idle i o e) = grind arith
  Step-Bounds blank inv (load_last i o e) = grind arith
  Step-Bounds blank inv (note i a o e) = grind arith

  pub Reach-Bounds : {blank : A} {s : System A} → Reach blank s → Bounds s
  Reach-Bounds start = grind arith
  Reach-Bounds {blank} (later r step) = Step-Bounds blank (Reach-Bounds r) step
