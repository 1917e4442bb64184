-- ===== src/Controllers/Completion/Answers.antt =====
-- What is relied on of the libraries when a reconcile is to end, the calls at which they may panic, and
-- `SyncRPC`.
use netconf_operator.Base.{◌≡◌, ◌≢◌, ◌⊎◌, refl, String, List, ◌∷◌, Option, none, some, ℤ}
use netconf_operator.Runtime.{
  Platform, State, M, Outcome, ok, panic, exit, external_or_panic, Error, SessionPtr, Message,
  Reply, Call, Callback, IsEither, Replies, FetchesByName,
}
use netconf_operator.Runtime.Io
use netconf_operator.Runtime.Finishes.{Finishes, >>=-Finishes, ok-Finishes}

-- `SyncRPC` on a live session returns a reply or an error, and no call of the client library ends the
-- process; its other calls may panic.
pub record Returning {W : Type 0} (P : Platform W) : Type 0 where
  pub named : FetchesByName P
  pub replies : Replies P
  pub builds : (m : Message) (w : W) → (P.new_message m w).0 ≢ exit
  pub greets :
      (p : Option SessionPtr) (capabilities : List String) (w : W)
      → (P.send_hello p capabilities w).0 ≢ exit
  pub streams :
      (p : Option SessionPtr) (t : ℤ) (stop start stream : String) (f : Callback) (w : W)
      → (P.create_notification_stream p t stop start stream f w).0 ≢ exit

module _ {W : Type 0} (P : Platform W) where
  -- The latest call is a `SyncRPC` that returned `x`.
  abbrev pub Answered : Option Reply × Option Error → State W → Type 0
  Answered x s =
      (q : SessionPtr) × (m : Message) × (t : ℤ) × (w : W) × (before : List Call) × ((P.sync_rpc
          (some q) m t w).0
        ≡ ok x)
      × (s.calls ≡ Call.sync_rpc (some q) m t ∷ before)

  -- The latest call is a `SyncRPC` that returned an error and no reply.
  abbrev pub HasFailedRpc : State W → Type 0
  HasFailedRpc s = (e : Error) × Answered (none, some e) s

  -- The latest call is that of a constructor that panicked: it refused its arguments.
  abbrev pub HasRefused : State W → Type 0
  HasRefused s =
      (m : Message) × (w : W) × (before : List Call) × ((P.new_message m w).0 ≡ panic)
      × (s.calls ≡ Call.new_message m ∷ before)

  -- The latest call is a greeting that was made on a nil session, or that panicked.
  abbrev pub HasFailedGreeting : State W → Type 0
  HasFailedGreeting s =
      (p : Option SessionPtr) × (capabilities : List String) × (before : List Call) × (s.calls
        ≡ Call.send_hello p capabilities ∷ before)
      × ((p ≡ none) ⊎ ((w : W) × ((P.send_hello p capabilities w).0 ≡ panic)))

  -- The latest call is one for a notification stream, on a live session, that panicked.
  abbrev pub HasBrokenStream : State W → Type 0
  HasBrokenStream s =
      (q : SessionPtr) × (t : ℤ) × (stop : String) × (start : String) × (stream : String)
      × (f : Callback) × (w : W) × (before : List Call) × ((P.create_notification_stream (some q) t
            stop start stream f w).0
          ≡ panic)
      × (s.calls ≡ Call.create_notification_stream (some q) t stop start stream f ∷ before)

  -- The two ways in which the sending of an RPC may panic.
  abbrev pub HasFailedSend : State W → Type 0
  HasFailedSend s = HasRefused s ⊎ HasFailedRpc s

  -- An outcome that is not the end of the process.
  pub outcome-Finishes :
      {A : Type 0} (X : State W → Type 0) (C : A → State W → Type 0) (r : Outcome A) (s : State W)
      → r ≢ exit
      → (r ≡ panic → X s)
      → ((a : A) → r ≡ ok a → C a s)
      → Finishes X C (r, s)
  outcome-Finishes X C (ok a) s ne x c = c a refl
  outcome-Finishes X C panic s ne x c = x refl
  outcome-Finishes X C exit s ne x c = absurd (ne refl)

  -- After a `SyncRPC`.
  abbrev pub Rpc : State W → Option Reply × Option Error → State W → Type 0
  Rpc s₀ x s = IsEither x × Answered x s × (s.sessions ≡ s₀.sessions)

  -- The message may be refused; `SyncRPC` itself does not panic, whatever `X` is.
  pub sync_rpc-Finishes :
      (X : State W → Type 0)
      → Returning P
      → ((s : State W) → HasRefused s → X s)
      → (q : SessionPtr) (m : Message) (t : ℤ) (s : State W)
      → Finishes X (Rpc s) (Io.sync_rpc P (some q) m t s)
  sync_rpc-Finishes X r refused q m t s =
      let s' : State W = record s {
        calls = Call.new_message m ∷ s.calls;
        world = (P.new_message m s.world).1;
      } in
      let build : M W (Unit {0}) = external_or_panic (Call.new_message m) (P.new_message m) in
      let exchange : M W (Option Reply × Option Error) =
        external_or_panic (Call.sync_rpc (some q) m t) (P.sync_rpc (some q) m t) in
      >>=-Finishes X (λ _ s'. s'.sessions ≡ s.sessions) (Rpc s) build (λ _. exchange) s
        (outcome-Finishes X (λ _ s'. s'.sessions ≡ s.sessions) (P.new_message m s.world).0 s'
          (r.builds m s.world) (λ h. refused s' (m, s.world, s.calls, h, refl)) (λ _ _. refl))
        λ _ s'' kept.
          let (x, same, either) = r.replies q m t s''.world in
          ok-Finishes X (Rpc s) _ _ x same
            (either, (q, m, t, s''.world, s''.calls, same, refl), kept)
