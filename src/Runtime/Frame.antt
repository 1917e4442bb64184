-- ===== src/Runtime/Frame.antt =====
-- What a run adds to the calls, when it leaves the sessions alone.
use netconf_operator.Base.{◌≡◌, refl, ap, sym, subst, List, [], ◌∷◌, ◌++◌}
use netconf_operator.Runtime.Calls.{Call}
use netconf_operator.Runtime.Monad.{State}

-- The calls of the client and of the reports, which reach the cluster only.
abbrev pub IsClusterCall : Call → Type 0
IsClusterCall (Call.client_get k n) = Unit
IsClusterCall (Call.client_update o) = Unit
IsClusterCall (Call.manage_error o e) = Unit
IsClusterCall (Call.manage_error_with_requeue o e t) = Unit
IsClusterCall (Call.manage_success o) = Unit
IsClusterCall c = ⊥

-- A property that such a call keeps, whatever it does to the world.
abbrev pub KeptByCluster : {W : Type 0} → (State W → Type 0) → Type 0
KeptByCluster {W} I =
    (c : Call) (w : W) (s : State W)
    → IsClusterCall c
    → I s
    → I (record s { calls = c ∷ s.calls; world = w })

abbrev pub All : (Call → Type 0) → List Call → Type 0
All C [] = Unit
All C (c ∷ cs) = C c × All C cs

-- Every call that was made after `old` is one of `C`.
abbrev pub Adds : (Call → Type 0) → List Call → List Call → Type 0
Adds C old calls = (new : List Call) × (calls ≡ new ++ old) × All C new

-- From `s`, the run has left the sessions alone and made calls of `C` only.
unfoldable pub Within : {W : Type 0} → (Call → Type 0) → State W → State W → Type 0
Within C s s' = (s'.sessions ≡ s.sessions) × Adds C s.calls s'.calls

module _ {W : Type 0} (C : Call → Type 0) (s : State W) where
  pub Within-refl : Within C s s
  unfolding Within
  Within-refl = (refl, ([], refl, tt))

  pub Within-sessions : (s' : State W) → Within C s s' → s'.sessions ≡ s.sessions
  unfolding Within
  Within-sessions s' i = i.0

  -- One more call of `C`, whatever it does to the world.
  pub Within-call :
      (c : Call) (w : W) (s' : State W)
      → C c
      → Within C s s'
      → Within C s (record s' { calls = c ∷ s'.calls; world = w })
  unfolding Within
  Within-call c w s' h (same, (new, e, all)) = (same, (c ∷ new, ap (λ cs. c ∷ cs) e, (h, all)))

All-mono : (C D : Call → Type 0) → ((c : Call) → C c → D c) → (cs : List Call) → All C cs → All D cs
All-mono C D f [] h = h
All-mono C D f (c ∷ cs) (h, hs) = (f c h, All-mono C D f cs hs)

pub Adds-mono :
    (C D : Call → Type 0)
    → ((c : Call) → C c → D c)
    → (old calls : List Call) → Adds C old calls
    → Adds D old calls
Adds-mono C D f old calls (new, e, all) = (new, e, All-mono C D f new all)

-- A run that may make the calls to the cluster may go on with one.
pub Within-KeptByCluster :
    {W : Type 0} (C : Call → Type 0) (s : State W)
    → ((c : Call) → IsClusterCall c → C c)
    → KeptByCluster (Within C s)
Within-KeptByCluster C s h c w s' cluster i = Within-call C s c w s' (h c cluster) i

All-append : (D : Call → Type 0) (new old : List Call) → All D new → All D old → All D (new ++ old)
All-append D [] old h k = k
All-append D (c ∷ new) old (h, hs) k = (h, All-append D new old hs k)

-- A run that makes calls of `C` only keeps what holds of every call, if it holds of those.
pub Within-All :
    {W : Type 0} (C D : Call → Type 0)
    → ((c : Call) → C c → D c)
    → (s s' : State W) → Within C s s'
    → All D s.calls
    → All D s'.calls
unfolding Within
Within-All C D f s s' (same, (new, e, all)) h =
    subst (All D) (sym e) (All-append D new s.calls (All-mono C D f new all) h)
