-- ===== src/Outbox/Race.antt =====
-- `try_acquire` of commit/outbox_store.py reads the lock file and then writes it, in two calls of
-- the client. Here these are two steps, and the steps of two workers may fall in any order.
use rtc_retrieval_token_cutt.Base.{ℕ, ◌≤◌, ◌≡◌, Bool, true, false, Text, arith, Result, ok, ◌>>=◌}
use rtc_retrieval_token_cutt.Outbox.Event.{OutboxEvent, lock_file, aware, holds}
use rtc_retrieval_token_cutt.Outbox.Client.{AgfsClient, AgfsLaws}
use rtc_retrieval_token_cutt.Outbox.Paths.{lock_path}
use rtc_retrieval_token_cutt.Outbox.Store.{node_path, outcome, try_acquire}

-- How far a worker is in `try_acquire`: at its start, behind the read of the lock, or returned.
pub data Phase : Type 0 where
  start : Phase
  checked : (held : Bool) → Phase
  returned : Result Bool → Phase

module _ (c : AgfsClient) (timeout now : ℕ) (lock : Text) where
  pub record System : Type 0 where
    pub files : c.Files
    pub left : Phase
    pub right : Phase

  -- The next step of one worker.
  unfoldable pub advance : (worker_id : Text) → Phase → c.Files → Phase × c.Files
  advance w start f = (checked (holds now timeout (c.read f lock)), f)
  advance w (checked true) f = (returned (ok false), f)
  advance w (checked false) f =
      let (written, f') = c.write f lock (lock_file w (aware now)) in
      (returned (outcome written >>= λ _. ok true), f')
  advance w (returned r) f = (returned r, f)

  abbrev pub step_left : Text → System → System
  step_left a s = record s {
    files = (advance a s.left s.files).1;
    left = (advance a s.left s.files).0;
  }

  abbrev pub step_right : Text → System → System
  step_right b s = record s {
    files = (advance b s.right s.files).1;
    right = (advance b s.right s.files).0;
  }

  -- A step of either worker.
  pub data Step (a b : Text) : System → System → Type 0 where
    left_step : (s : System) → Step a b s (step_left a s)
    right_step : (s : System) → Step a b s (step_right b s)

  pub data Reach (a b : Text) (s : System) : System → Type 0 where
    here : Reach a b s s
    next : {t u : System} → Reach a b s t → Step a b t u → Reach a b s u

  abbrev pub both_at_start : c.Files → System
  both_at_start f = record { files = f; left = start; right = start }

  -- Two workers at the start, with steps of both before either has written.
  interleaved :
      (a b : Text) (f : c.Files)
      → holds now timeout (c.read f lock) ≡ false
      → ((g : c.Files) (w : Text) → (c.write g lock (lock_file w (aware now))).0 ≡ true)
      → (s : System) × Reach a b (both_at_start f) s
        × (s.left ≡ returned (ok true))
        × (s.right ≡ returned (ok true))
  unfolding advance
  interleaved a b f free writes =
      let s₁ = step_left a (both_at_start f) in
      let s₂ = step_right b s₁ in
      let s₃ = step_left a s₂ in
      (
        step_right b s₃,
        next (next (next (next here (left_step _)) (right_step s₁)) (left_step s₂)) (right_step s₃),
        ground (arith, writes f a),
        ground (arith, writes (c.write f lock (lock_file a (aware now))).1 b),
      )

-- The two steps of one worker with no other between them are `try_acquire`.
try_acquire-eq-steps :
    (c : AgfsClient) (unquote : Text → Text) (mount_prefix : Text) (event : OutboxEvent)
    (node_uri w : Text) (timeout now : ℕ) (f : c.Files)
    → let lock = lock_path (node_path c unquote mount_prefix node_uri) event.event_id in
      let step = advance c timeout now lock w in
      let (r, f') = try_acquire c unquote mount_prefix event node_uri w timeout now f in
      ◌≡◌ {A = Phase × c.Files} (step (step start f).0 (step start f).1) (returned r, f')
unfolding try_acquire advance
try_acquire-eq-steps c unquote mount_prefix event node_uri w timeout now f = ground arith

module _ (c : AgfsClient) (laws : AgfsLaws c) (unquote : Text → Text) (mount_prefix : Text)
    (event : OutboxEvent) (node_uri : Text) (timeout now : ℕ) where
  abbrev lock_of : Text
  lock_of = lock_path (node_path c unquote mount_prefix node_uri) event.event_id

  abbrev claim : Text → c.Files → Result Bool × c.Files
  claim w f = try_acquire c unquote mount_prefix event node_uri w timeout now f

  second_refused :
      (a b : Text) (f : c.Files)
      → 1 ≤ timeout
      → holds now timeout (c.read f lock_of) ≡ false
      → (c.write f lock_of (lock_file a (aware now))).0 ≡ true
      → (claim b (claim a f).1).0 ≡ ok false
  unfolding try_acquire
  second_refused a b f one free writes =
      ground (arith, one, free, writes, laws.read-write f lock_of (lock_file a (aware now)))

  -- The claim is not atomic. `try_acquire` is its read of the lock and its write, with no step of another
  -- worker between them. Of two workers that start at the same time on an event which no lock holds, the
  -- second is refused where it starts behind the first, and both come out with True where both read
  -- before either writes, if the writes succeed and the lock lasts a second at least.
  pub both_claim :
      (a b : Text) (f : c.Files)
      → 1 ≤ timeout
      → holds now timeout (c.read f lock_of) ≡ false
      → ((g : c.Files) (w : Text) → (c.write g lock_of (lock_file w (aware now))).0 ≡ true)
      → ((w : Text) (g : c.Files)
          → advance c timeout now lock_of w
              (advance c timeout now lock_of w start g).0
              (advance c timeout now lock_of w start g).1
            ≡ (returned (claim w g).0, (claim w g).1))
        × ((claim b (claim a f).1).0 ≡ ok false)
        × ((s : System c timeout now lock_of) × Reach c timeout now lock_of a b
              (both_at_start c timeout now lock_of f)
              s
            × (s.left ≡ returned (ok true))
            × (s.right ≡ returned (ok true)))
  both_claim a b f one free writes = (
    λ w g. try_acquire-eq-steps c unquote mount_prefix event node_uri w timeout now g,
    second_refused a b f one free (writes f a),
    interleaved c timeout now lock_of a b f free writes,
  )
