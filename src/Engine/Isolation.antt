-- ===== src/Engine/Isolation.antt =====
-- A plugin that fails does not touch the traffic: `HandleRequest` of internal/plugin/engine.go.
use shiv.Prelude.{
  Bool-cases, ◌≡◌, refl, sym, ap, ◌∙◌, ◌⊎◌, inl, inr, true, false, ◌&&◌, List, [], ◌∷◌, ◌++◌,
}
use shiv.Text.{Bytes, codes}
use shiv.Http.Message.{Request}
use shiv.Events.Event.{RequestResult}
use shiv.Engine.{
  raised, no_table, returned, handle_plugins, request_table, is_dropped, read_back, or_old, Answer,
  RequestTable, Lua, Plugin,
}

-- A call that gives back no table: it raised an error, ran out of time, or returned something else.
abbrev pub GivesNone : {A : Type 0} → Answer A → Type 0
GivesNone raised = Unit
GivesNone no_table = Unit
GivesNone (returned a) = ⊥

Answer-cases :
    {A : Type 0} (a : Answer A) → (a ≡ raised) ⊎ (a ≡ no_table) ⊎ ((x : A) × (a ≡ returned x))
Answer-cases raised = inl refl
Answer-cases no_table = inr (inl refl)
Answer-cases (returned x) = inr (inr (x, refl))

not-GivesNone : {A : Type 0} (a : Answer A) (x : A) → a ≡ returned x → GivesNone a → ⊥
not-GivesNone raised x e h = cc
not-GivesNone no_table x e h = cc
not-GivesNone (returned y) x e h = h

module _ {V W : Type 0} (lua : Lua V W) where
  -- A plugin that is disabled, has no such hook, or, whatever it is asked and whatever the shared
  -- store holds, gives back no table and leaves the store as it was.
  abbrev pub IsSilent : Plugin V → Type 0
  IsSilent p =
      ((p.enabled && lua.has (codes "on_request") p.vm) ≡ false)
      ⊎ ((t : RequestTable) (w : W)
          → GivesNone (lua.on_request t p.vm w).answer × ((lua.on_request t p.vm w).world ≡ w))

  silent_skipped :
      (p : Plugin V) (ps : List (Plugin V)) (req : Request) (body : Bytes) (w : W)
      → IsSilent p
      → (handle_plugins lua (p ∷ ps) req body w).result ≡ (handle_plugins lua ps req body w).result
  unfolding handle_plugins
  silent_skipped p ps req body w (inl off) = rw (off, handle_plugins) refl
  silent_skipped p ps req body w (inr none_given) =
      let t = request_table req body in
      let c = lua.on_request t p.vm w in
      let kept = none_given t w in
      elim (Bool-cases (p.enabled && lua.has (codes "on_request") p.vm)) [
        | inl off ↦
            rw (off, handle_plugins)
              (elim (Answer-cases c.answer) [
                | inl e ↦ rw e (ap (λ v. (handle_plugins lua ps req body v).result) kept.1)
                | inr (inl e) ↦ rw e (ap (λ v. (handle_plugins lua ps req body v).result) kept.1)
                | inr (inr (x, e)) ↦ absurd (not-GivesNone c.answer x e kept.0)
              ])
        | inr off ↦ rw (off, handle_plugins) refl
      ]

  -- What a plugin makes of a request and the store: a drop, or a request for the next plugin.
  first_plugin :
      (p : Plugin V) (req : Request) (body : Bytes) (w : W)
      → ((r : RequestResult × W) × ((ps : List (Plugin V))
            → (handle_plugins lua (p ∷ ps) req body w).result ≡ r))
        ⊎ ((req' : Request) × (body' : Bytes) × (w' : W) × ((ps : List (Plugin V))
              → (handle_plugins lua (p ∷ ps) req body w).result
                ≡ (handle_plugins lua ps req' body' w').result))
  unfolding handle_plugins
  first_plugin p req body w =
      let c = lua.on_request (request_table req body) p.vm w in
      elim (Bool-cases (p.enabled && lua.has (codes "on_request") p.vm)) [
        | inr off ↦ inr (req, body, w, λ ps. rw (off, handle_plugins) refl)
        | inl on ↦ elim (Answer-cases c.answer) [
          | inl e ↦ inr (req, body, c.world, λ ps. rw (on, handle_plugins) (rw e refl))
          | inr (inl e) ↦ inr (req, body, c.world, λ ps. rw (on, handle_plugins) (rw e refl))
          | inr (inr (a, e)) ↦ elim (Bool-cases (is_dropped a.dropped)) [
            | inl gone ↦ inl (
              (record { dropped = true; request = req; body = body }, c.world),
              λ ps. rw (on, handle_plugins) (rw e (rw gone refl)),
            )
            | inr kept ↦ inr (
              read_back lua a req,
              or_old a.body body,
              c.world,
              λ ps. rw (on, handle_plugins) (rw e (rw kept refl)),
            )
          ]
        ]
      ]

  -- A plugin that is disabled, or does not define `on_request`, has no part in what becomes of a
  -- request, wherever it stands among the plugins: whether the request is dropped, the request and
  -- body that go on, and the store that the plugins share, are what the other plugins alone make of
  -- it. So has one whose hook leaves that store as it was and raises an error, runs out of time or
  -- gives back no table.
  pub handle_plugins-silent :
      (ps : List (Plugin V)) (p : Plugin V) (qs : List (Plugin V)) (req : Request) (body : Bytes)
      (w : W)
      → IsSilent p
      → (handle_plugins lua (ps ++ p ∷ qs) req body w).result
        ≡ (handle_plugins lua (ps ++ qs) req body w).result
  handle_plugins-silent [] p qs req body w h = silent_skipped p qs req body w h
  handle_plugins-silent (q ∷ ps) p qs req body w h = elim (first_plugin q req body w) [
    | inl (r, dropped_by) ↦ dropped_by (ps ++ p ∷ qs) ∙ sym (dropped_by (ps ++ qs))
    | inr (req', body', w', goes_on) ↦
        goes_on (ps ++ p ∷ qs)
        ∙ handle_plugins-silent ps p qs req' body' w' h
        ∙ sym (goes_on (ps ++ qs))
  ]
