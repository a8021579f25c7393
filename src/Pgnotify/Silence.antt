-- ===== src/Pgnotify/Silence.antt =====
-- What becomes of subscriptions over calls of `Subscribe` and `Unsubscribe`.
use my_go.Common.{
  ℕ, ◌<◌, ◌≡◌, refl, sym, subst, String, List, [], ◌∷◌, Option, none, some, Bool, true, false,
  Bool-cases, inl, inr, not, ◌&&◌, if◌then◌else◌, ◌==◌, Fallible, ok, err, str_eq, arith,
}
use my_go.Pgnotify.{Config, ConnectionProvider, Callback, Subscription, Notifier, NotifyError}
use my_go.Pgnotify.Channels.{
  has_channel-insert, has_channel-inserted, eq_refl, eq_old, has_channel-remove, ok_same, differ,
}
use my_go.Pgnotify.Subscribing.{
  hook, has_channel, set_at, add, subscribe, subscribe_added, on_listened, on_subscribed,
  unsubscribe, unsubscribe_channel,
}

-- A caller subscribes, or unsubscribes a subscription that it was given.
pub data Call (W : Type 0) : Type 0 where
  to_subscribe : String → Option (Callback W) → Call W
  to_unsubscribe : ℕ → Call W

-- The notifier and the subscriptions that it has given out.
pub record Given (W : Type 0) : Type 0 where
  pub notifier : Notifier W
  pub given : List ℕ

unfoldable pub is_given : ℕ → List ℕ → Bool
is_given p [] = false
is_given p (q ∷ qs) = let rest = is_given p qs in if p == q then true else rest

module _ {W : Type 0} (config : Config W) (provider : ConnectionProvider W) where
  abbrev pub on_given : List ℕ → Notifier W × Fallible NotifyError ℕ → Given W
  on_given given (n, ok sub) = record { notifier = n; given = sub ∷ given }
  on_given given (n, err e) = record { notifier = n; given = given }

  unfoldable pub act : Call W → Given W → Given W
  act (to_subscribe channel callback) g =
      on_given g.given (subscribe config provider channel callback g.notifier)
  act (to_unsubscribe p) g =
      if is_given p g.given
      then record g { notifier = (unsubscribe config provider p g.notifier).0 }
      else g

  unfoldable pub act_all : List (Call W) → Given W → Given W
  act_all [] g = g
  act_all (c ∷ cs) g = act_all cs (act c g)

  -- A subscription that was given out is at its address, and the manager knows its channel.
  pub record Held (p : ℕ) (n : Notifier W) : Type 0 where
    pub old : p < n.fresh
    pub held : Subscription W
    pub at : n.heap p ≡ some held
    pub known : has_channel held.channel n.subscriptions ≡ true

  abbrev AllHeld : Given W → Type 0
  AllHeld g = (p : ℕ) → is_given p g.given ≡ true → Held p g.notifier

  unsubscribe_channel-known :
      (channel : String) (n : Notifier W)
      → has_channel channel n.subscriptions ≡ true
      → unsubscribe_channel config provider channel n ≡ (n, none)
  unfolding unsubscribe_channel
  unsubscribe_channel-known channel n h = rw (unsubscribe_channel, h) refl

  abbrev marked_if : Bool → ℕ → Subscription W → Notifier W → Notifier W
  marked_if true p s n = record n { heap = set_at p (record s { active = false }) n.heap }
  marked_if false p s n = n

  unsubscribe-Held :
      (p : ℕ) (n : Notifier W) (h : Held p n)
      → unsubscribe config provider p n ≡ (marked_if h.held.active p h.held n, none)
  unfolding unsubscribe
  unsubscribe-Held p n h = rw (unsubscribe, h.at) (go h.held.active refl)
    where
      go :
          (b : Bool)
          → h.held.active ≡ b
          → (if b
              then unsubscribe_channel config provider h.held.channel
                  (record n { heap = set_at p (record h.held { active = false }) n.heap })
              else (n, none))
            ≡ (marked_if b p h.held n, none)
      go true e =
          unsubscribe_channel-known h.held.channel
            (record n { heap = set_at p (record h.held { active = false }) n.heap }) h.known
      go false e = refl

  Held-marked :
      (p q : ℕ) (n : Notifier W) (b : Bool) (h : Held p n)
      → Held q n
      → Held q (marked_if b p h.held n)
  Held-marked p q n false h k = k
  Held-marked p q n true h k = elim (Bool-cases (q == p)) [
    | inl e ↦ record {
      old = k.old;
      held = record h.held { active = false };
      at = rw e refl;
      known = h.known;
    }
    | inr e ↦ record { old = k.old; held = k.held; at = rw e k.at; known = k.known }
  ]

  Held-add :
      (q : ℕ) (channel : String) (callback : Callback W) (n : Notifier W)
      → Held q n
      → Held q (add channel callback n).0
  unfolding add
  Held-add q channel callback n h = record {
    old = omega (arith, h.old);
    held = h.held;
    at = rw (eq_old q n.fresh h.old) h.at;
    known = has_channel-insert h.held.channel channel n.fresh _ n.subscriptions h.known;
  }

  Held-added :
      (channel : String) (callback : Callback W) (n : Notifier W)
      → Held n.fresh (add channel callback n).0
  unfolding add
  Held-added channel callback n = record {
    old = omega arith;
    held = record { channel = channel; callback = callback; active = true };
    at = rw (eq_refl n.fresh) refl;
    known = has_channel-inserted channel n.fresh _ n.subscriptions;
  }

  -- The subscriptions that were given out stay known, and a new one is.
  pub record Keeps (n : Notifier W) (r : Notifier W × Fallible NotifyError ℕ) : Type 0 where
    pub kept : (q : ℕ) → Held q n → Held q r.0
    pub new : (sub : ℕ) → r.1 ≡ ok sub → Held sub r.0

  Held-world : (q : ℕ) (n : Notifier W) (w : W) → Held q n → Held q (record n { world = w })
  Held-world q n w h = record { old = h.old; held = h.held; at = h.at; known = h.known }

  Keeps-failed : (n : Notifier W) (e : NotifyError) → Keeps n (n, err e)
  Keeps-failed n e = record { kept = λ q h. h; new = λ sub same. cc }

  Keeps-if :
      (n : Notifier W) (b : Bool) (r s : Notifier W × Fallible NotifyError ℕ)
      → (b ≡ true → Keeps n r)
      → (b ≡ false → Keeps n s)
      → Keeps n (if b then r else s)
  Keeps-if n true r s f g = f refl
  Keeps-if n false r s f g = g refl

  module _ (channel : String) (callback : Callback W) (n : Notifier W) where
    abbrev added : Notifier W
    added = (add channel callback n).0

    Keeps-subscribed :
        (w : W)
        → Keeps n (on_subscribed config provider channel (record added { world = w }, n.fresh))
    Keeps-subscribed w = record {
      kept = λ q h. Held-world q added _ (Held-add q channel callback n h);
      new = λ sub same.
          subst (λ p. Held p (record added { world = hook config.hooks.on_subscribe channel w }))
            (ok_same n.fresh sub same) (Held-world n.fresh added _ (Held-added channel callback n));
    }

    Keeps-listened :
        (r : W × Option String)
        → has_channel channel n.subscriptions ≡ false
        → Keeps n (on_listened config provider channel (added, n.fresh) r)
    unfolding add
    Keeps-listened (w, none) e = Keeps-subscribed w
    Keeps-listened (w, some x) e = record {
      kept = λ q h. record {
        old = omega (arith, h.old);
        held = h.held;
        at = rw (eq_old q n.fresh h.old) h.at;
        known =
            has_channel-remove h.held.channel channel n.fresh _
              (differ channel h.held.channel n.subscriptions e h.known)
              (has_channel-insert h.held.channel channel n.fresh _ n.subscriptions h.known);
      };
      new = λ sub same. cc;
    }

    Keeps-added :
        (needs : Bool)
        → needs ≡ not (has_channel channel n.subscriptions)
        → Keeps n (subscribe_added config provider channel needs (add channel callback n))
    unfolding add
    Keeps-added needs e =
        Keeps-if n (needs && provider.is_connected n.world) _ _
          (λ h. Keeps-listened (provider.listen channel n.world) (ground (arith, e, h)))
          (λ h. Keeps-subscribed n.world)

  Keeps-subscribe :
      (channel : String) (callback : Option (Callback W)) (n : Notifier W)
      → Keeps n (subscribe config provider channel callback n)
  unfolding subscribe
  Keeps-subscribe channel none n =
      Keeps-if n (str_eq channel "") _ _ (λ h. Keeps-failed n _) (λ h. Keeps-failed n _)
  Keeps-subscribe channel (some f) n =
      Keeps-if n (str_eq channel "") _ _ (λ h. Keeps-failed n _)
        (λ h. Keeps-added channel f n (not (has_channel channel n.subscriptions)) refl)

  AllHeld-given :
      (given : List ℕ) (n : Notifier W) (r : Notifier W × Fallible NotifyError ℕ)
      → ((p : ℕ) → is_given p given ≡ true → Held p n)
      → Keeps n r
      → AllHeld (on_given given r)
  unfolding is_given
  AllHeld-given given n (m, err e) a k p h = k.kept p (a p h)
  AllHeld-given given n (m, ok sub) a k p h = elim (Bool-cases (p == sub)) [
    | inl e ↦ subst (λ q. Held q m) (sym (ground (arith, e))) (k.new sub refl)
    | inr e ↦ k.kept p (a p (rw e at h))
  ]

  AllHeld-act : (c : Call W) (g : Given W) → AllHeld g → AllHeld (act c g)
  unfolding act
  AllHeld-act (to_subscribe channel f) g a =
      AllHeld-given g.given g.notifier _ a (Keeps-subscribe channel f g.notifier)
  AllHeld-act (to_unsubscribe p) g a = elim (Bool-cases (is_given p g.given)) [
    | inl e ↦
        rw (act, e)
          (λ q h.
            rw (unsubscribe-Held p g.notifier (a p e))
              (Held-marked p q g.notifier (a p e).held.active (a p e) (a q h)))
    | inr e ↦ rw (act, e) a
  ]

  AllHeld-act_all : (cs : List (Call W)) (g : Given W) → AllHeld g → AllHeld (act_all cs g)
  unfolding act_all
  AllHeld-act_all [] g a = a
  AllHeld-act_all (c ∷ cs) g a = AllHeld-act_all cs (act c g) (AllHeld-act c g a)

  abbrev pub Silent : ℕ → Notifier W → Type 0
  Silent p n =
      ((unsubscribe config provider p n).1 ≡ none)
      × ((unsubscribe config provider p n).0.world ≡ n.world)
      × ((unsubscribe config provider p n).0.subscriptions ≡ n.subscriptions)

  Silent-Held : (p : ℕ) (n : Notifier W) → Held p n → Silent p n
  Silent-Held p n h = rw (unsubscribe-Held p n h) (go h.held.active)
    where
      go :
          (b : Bool)
          → (◌≡◌ {A = Option NotifyError} none none)
            × ((marked_if b p h.held n).world ≡ n.world)
            × ((marked_if b p h.held n).subscriptions ≡ n.subscriptions)
      go true = (refl, refl, refl)
      go false = (refl, refl, refl)

  -- A notifier that has given out no subscription is used by any calls of `Subscribe` and
  -- `Unsubscribe`, one after the other. Then `Unsubscribe` of any subscription that was given out
  -- returns no error and does nothing outside, so UNLISTEN is never sent, and leaves the manager as it
  -- is: the subscription stays in its count.
  pub unsubscribe-Silent :
      (cs : List (Call W)) (n : Notifier W) (p : ℕ)
      → is_given p (act_all cs (record { notifier = n; given = [] })).given ≡ true
      → Silent p (act_all cs (record { notifier = n; given = [] })).notifier
  unfolding is_given
  unsubscribe-Silent cs n p h =
      Silent-Held p (act_all cs (record { notifier = n; given = [] })).notifier
        (AllHeld-act_all cs (record { notifier = n; given = [] }) (λ q e. cc) p h)
