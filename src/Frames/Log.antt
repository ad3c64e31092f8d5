-- ===== src/Frames/Log.antt =====
-- What is logged of the frames, and what is passed on.
use mathlib.Core.Option
use shiv.Prelude.{
  ltb, ◌==◌, ◌^◌, if◌then◌else◌, Bool-cases, length, take, length-take, All, All-append, ℕ, zero,
  suc, ◌≤◌, ◌≡◌, refl, sym, ap, ◌∙◌, ◌≢◌, inl, inr, Bool, true, false, not, ◌&&◌, Option, none,
  some, List, [], ◌∷◌, ◌++◌, append-nil, append_assoc, arith,
}
use shiv.Text.{Bytes}
use shiv.Events.Event.{WebSocketFrameEvent}
use shiv.Frames.{
  ws_frame_size_limit, frames_for_connection, cut_payload, frame_of, observe_web_socket_frame,
  WebSocketFrame, FrameStore,
}

-- The frames of several events, each with whether the database fails on it, the first one first.
unfoldable pub observe_frames : List (Bool × WebSocketFrameEvent) → FrameStore → FrameStore
observe_frames [] s = s
observe_frames ((fails, e) ∷ es) s = observe_frames es (observe_web_socket_frame fails e s).1

-- What a connection is to show of the events: those of its id that the database took, a payload with
-- its first 2 ^ 20 bytes.
unfoldable pub logged : ℕ → List (Bool × WebSocketFrameEvent) → List (Option Bytes)
logged id [] = []
logged id ((fails, e) ∷ es) =
    let rest = logged id es in
    if not fails && e.connection_id == id then Option.map (take (2 ^ 20)) e.payload ∷ rest else rest

abbrev pub payloads : List WebSocketFrame → List (Option Bytes)
payloads [] = []
payloads (f ∷ fs) = f.payload ∷ payloads fs

-- The payload is within the size limit.
abbrev pub IsLimited : Option Bytes → Type 0
IsLimited none = Unit
IsLimited (some p) = length p ≤ ws_frame_size_limit

length-cut : (n : ℕ) (p : Bytes) → length (if ltb n (length p) then take n p else p) ≤ n
length-cut n p = elim (Bool-cases (ltb n (length p))) [
  | inl long ↦
      simp long (let over : n ≤ length p = ground arith in omega (arith, length-take n p over))
  | inr short ↦ simp short (ground arith)
]

cut_payload-IsLimited : (p : Option Bytes) → IsLimited (cut_payload p)
unfolding cut_payload
cut_payload-IsLimited none = tt
cut_payload-IsLimited (some p) = length-cut ws_frame_size_limit p

payloads-append : (xs ys : List WebSocketFrame) → payloads (xs ++ ys) ≡ payloads xs ++ payloads ys
payloads-append [] ys = refl
payloads-append (f ∷ xs) ys = ap (◌∷◌ f.payload) (payloads-append xs ys)

frames_for_connection-append :
    (id : ℕ) (xs ys : List WebSocketFrame)
    → frames_for_connection id (xs ++ ys)
      ≡ frames_for_connection id xs ++ frames_for_connection id ys
unfolding frames_for_connection
frames_for_connection-append id [] ys = refl
frames_for_connection-append id (f ∷ xs) ys = ground (arith, frames_for_connection-append id xs ys)

-- What one event adds to a connection.
unfoldable pub added : ℕ → Bool → WebSocketFrameEvent → List (Option Bytes)
added id fails e = if not fails && e.connection_id == id then cut_payload e.payload ∷ [] else []

row_payloads :
    (id n : ℕ) (e : WebSocketFrameEvent)
    → payloads (frames_for_connection id (record (frame_of e) { id = n } ∷ [])) ≡ added id false e
unfolding frames_for_connection frame_of added
row_payloads id n e = ground arith

observe_web_socket_frame-added :
    (id : ℕ) (fails : Bool) (e : WebSocketFrameEvent) (s : FrameStore)
    → id ≢ 0
    → payloads (frames_for_connection id (observe_web_socket_frame fails e s).1.frames)
      ≡ payloads (frames_for_connection id s.frames) ++ added id fails e
unfolding observe_web_socket_frame added
observe_web_socket_frame-added id true e s h = rw append-nil (ground arith)
observe_web_socket_frame-added id false e s h = elim (Bool-cases (e.connection_id == 0)) [
  | inl untracked ↦
      let other : (e.connection_id == id) ≡ false = ground arith in
      simp (untracked, other, append-nil) refl
  | inr tracked ↦
      simp (tracked, frames_for_connection-append, payloads-append, row_payloads id s.next_frame e)
        refl
]

take_all {ℓ} : {A : Type ℓ} (n : ℕ) (xs : List A) → length xs ≤ n → take n xs ≡ xs
take_all zero [] h = refl
take_all (suc n) [] h = refl
take_all zero (x ∷ xs) h = absurd (omega arith)
take_all (suc n) (x ∷ xs) h = ap (◌∷◌ x) (take_all n xs (omega arith))

if_long : (n : ℕ) (p : Bytes) → (if ltb n (length p) then take n p else p) ≡ take n p
if_long n p = elim (Bool-cases (ltb n (length p))) [
  | inl long ↦ rw long refl
  | inr short ↦ rw short (sym (take_all n p (ground arith)))
]

-- A payload is cut to its first 1 MiB.
cut_payload_lem : (p : Option Bytes) → cut_payload p ≡ Option.map (take (2 ^ 20)) p
unfolding cut_payload
cut_payload_lem none = refl
cut_payload_lem (some p) = ap some (if_long (2 ^ 20) p)

if_added {ℓ} :
    {A : Type ℓ} (b : Bool) (x : A) (xs : List A)
    → (if b then x ∷ xs else xs) ≡ (if b then x ∷ [] else []) ++ xs
if_added true x xs = refl
if_added false x xs = refl

logged-added :
    (id : ℕ) (fails : Bool) (e : WebSocketFrameEvent) (es : List (Bool × WebSocketFrameEvent))
    → logged id ((fails, e) ∷ es) ≡ added id fails e ++ logged id es
unfolding logged added
logged-added id fails e es =
    rw (← cut_payload_lem e.payload)
      (if_added (not fails && e.connection_id == id) (cut_payload e.payload) (logged id es))

observe_frames-append :
    (id : ℕ) (es : List (Bool × WebSocketFrameEvent)) (s : FrameStore)
    → id ≢ 0
    → payloads (frames_for_connection id (observe_frames es s).frames)
      ≡ payloads (frames_for_connection id s.frames) ++ logged id es
unfolding observe_frames logged
observe_frames-append id [] s h = sym (append-nil (payloads (frames_for_connection id s.frames)))
observe_frames-append id ((fails, e) ∷ es) s h =
    observe_frames-append id es (observe_web_socket_frame fails e s).1 h
    ∙ ap (λ xs. xs ++ logged id es) (observe_web_socket_frame-added id fails e s h)
    ∙ append_assoc (payloads (frames_for_connection id s.frames)) (added id fails e) (logged id es)
    ∙ ap (λ xs. payloads (frames_for_connection id s.frames) ++ xs)
        (sym (logged-added id fails e es))

-- For an id other than 0 with no frames yet, the log of that connection, read back in order, is the
-- payloads of its frames as they came, each cut to its first 2 ^ 20 bytes, without those on which the
-- database failed; the frames of other connections, and those of no connection, leave no trace.
pub frames_for_connection-observe_frames :
    (id : ℕ) (es : List (Bool × WebSocketFrameEvent)) (s : FrameStore)
    → id ≢ 0
    → frames_for_connection id s.frames ≡ []
    → payloads (frames_for_connection id (observe_frames es s).frames) ≡ logged id es
frames_for_connection-observe_frames id es s h none_yet =
    observe_frames-append id es s h ∙ ap (λ fs. payloads fs ++ logged id es) none_yet

if_same {ℓ} : {A : Type ℓ} (b : Bool) (x : A) → (if b then x else x) ≡ x
if_same true x = refl
if_same false x = refl

one_row :
    (n : ℕ) (e : WebSocketFrameEvent)
    → All IsLimited (payloads (record (frame_of e) { id = n } ∷ []))
unfolding frame_of
one_row n e = (cut_payload-IsLimited e.payload, tt)

observe_web_socket_frame-IsLimited :
    (fails : Bool) (e : WebSocketFrameEvent) (s : FrameStore)
    → All IsLimited (payloads s.frames)
    → All IsLimited (payloads (observe_web_socket_frame fails e s).1.frames)
unfolding observe_web_socket_frame
observe_web_socket_frame-IsLimited true e s h = rw if_same h
observe_web_socket_frame-IsLimited false e s h = elim (Bool-cases (e.connection_id == 0)) [
  | inl untracked ↦ simp untracked h
  | inr tracked ↦
      simp (tracked, payloads-append)
        (All-append IsLimited (payloads s.frames) _ h (one_row s.next_frame e))
]

-- If no payload in the log is longer than 1 MiB, none is after one more frame, while the payload that goes on to the other side is
-- the whole one, whether the frame is logged or not.
pub observe_web_socket_frame-payload :
    (fails : Bool) (e : WebSocketFrameEvent) (s : FrameStore)
    → All IsLimited (payloads s.frames)
    → ((observe_web_socket_frame fails e s).0.payload ≡ e.payload)
      × All IsLimited (payloads (observe_web_socket_frame fails e s).1.frames)
observe_web_socket_frame-payload fails e s h =
    (unfold observe_web_socket_frame in refl, observe_web_socket_frame-IsLimited fails e s h)
