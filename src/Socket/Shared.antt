-- ===== src/Socket/Shared.antt =====
-- Sockets of the services on one port: when they are opened, and how they share the port.
use mathlib.Core.List.{append_assoc, append-nil}
use mathlib.Core.Path.{subst}
use cncnet_server.Base.{
  ℕ, zero, suc, ◌<◌, ◌≡◌, ◌≢◌, refl, sym, ap, ◌∙◌, ◌⊎◌, inl, inr, true, false, Option, none, some,
  List, [], ◌∷◌, ◌++◌, All, All-append, arith, Option-cases,
}
use cncnet_server.Errors.{ServerError, Result, err, ok, ◌>>=◌, answered}
use cncnet_server.Socket.{
  Socket, unbound, Call, create, set_reuse_address, set_reuse_port, set_nonblocking, from_std, Os,
  bound_socket, open_sockets, Task, receive_loops, start_workers,
}

-- A socket as the services leave it.
abbrev pub ready : (fd recv send port : ℕ) → Socket
ready fd recv send port = record {
  fd = fd;
  reuse_address = true;
  reuse_port = true;
  recv_buffer_size = recv;
  send_buffer_size = send;
  bound = some port;
  nonblocking = true;
}

-- And as it is when it is bound.
abbrev pub sharing : (fd recv send : ℕ) → Socket
sharing fd recv send = record {
  fd = fd;
  reuse_address = true;
  reuse_port = true;
  recv_buffer_size = recv;
  send_buffer_size = send;
  bound = none;
  nonblocking = false;
}

abbrev first_error : List (Option ServerError) → Option ServerError
first_error [] = none
first_error (none ∷ answers) = first_error answers
first_error (some e ∷ answers) = some e

-- The error that ends the opening of a socket: the first answer, in the order of the calls, that is
-- one.
abbrev pub refusal : Os → List Socket → ℕ → ℕ → ℕ → Option ServerError
refusal os opened recv send port = first_error (
    os.answer opened create
    ∷ os.answer opened set_reuse_address
    ∷ os.answer opened set_reuse_port
    ∷ os.answer_bind opened (sharing (os.descriptor opened) recv send) port
    ∷ os.answer opened set_nonblocking
    ∷ os.answer opened from_std
    ∷ [])

-- The calls from `bind` on, with their answers.
abbrev last_calls : (fd recv send port : ℕ) (bind g h : Option ServerError) → Result Socket
last_calls fd recv send port bind g h = do
  socket ← answered bind (record (sharing fd recv send) { bound = some port })
  socket ← answered g (record socket { nonblocking = true })
  answered h socket

last_calls-answered :
    (fd recv send port : ℕ) (bind g h : Option ServerError)
    → last_calls fd recv send port bind g h
      ≡ answered (first_error (bind ∷ g ∷ h ∷ [])) (ready fd recv send port)
last_calls-answered fd recv send port (some e) g h = refl
last_calls-answered fd recv send port none (some e) h = refl
last_calls-answered fd recv send port none none (some e) = refl
last_calls-answered fd recv send port none none none = refl

-- All calls, with what `bind` answers for a socket.
abbrev calls :
    (fd recv send port : ℕ)
    → (a b c : Option ServerError) → (Socket → Option ServerError)
    → (g h : Option ServerError) → Result Socket
calls fd recv send port a b c bind g h = do
  socket ← answered a (unbound fd)
  socket ← answered b (record socket { reuse_address = true })
  socket ← answered c (record socket { reuse_port = true })
  let sized = record socket { recv_buffer_size = recv; send_buffer_size = send }
  socket ← answered (bind sized) (record sized { bound = some port })
  socket ← answered g (record socket { nonblocking = true })
  answered h socket

calls-answered :
    (fd recv send port : ℕ) (a b c : Option ServerError) (bind : Socket → Option ServerError)
    (g h : Option ServerError)
    → calls fd recv send port a b c bind g h
      ≡ answered
          (first_error (a ∷ b ∷ c ∷ bind (sharing fd recv send) ∷ g ∷ h ∷ []))
          (ready fd recv send port)
calls-answered fd recv send port (some e) b c bind g h = refl
calls-answered fd recv send port none (some e) c bind g h = refl
calls-answered fd recv send port none none (some e) bind g h = refl
calls-answered fd recv send port none none none bind g h =
    last_calls-answered fd recv send port (bind (sharing fd recv send)) g h

-- A socket is opened as the services need it, or the first error is returned.
pub bound_socket-answered :
    (os : Os) (opened : List Socket) (recv send port : ℕ)
    → bound_socket os opened recv send port
      ≡ answered (refusal os opened recv send port) (ready (os.descriptor opened) recv send port)
unfolding bound_socket
bound_socket-answered os opened recv send port =
    calls-answered (os.descriptor opened) recv send port (os.answer opened create)
      (os.answer opened set_reuse_address) (os.answer opened set_reuse_port)
      (λ s. os.answer_bind opened s port) (os.answer opened set_nonblocking)
      (os.answer opened from_std)

-- The sockets of a number of workers, opened one after the other.
abbrev pub fresh : Os → (recv send port : ℕ) → ℕ → List Socket → List Socket
fresh os recv send port zero opened = []
fresh os recv send port (suc n) opened =
    let s = ready (os.descriptor opened) recv send port in
    s ∷ fresh os recv send port n (opened ++ s ∷ [])

-- No two of the sockets are the same.
abbrev pub Apart : List Socket → Type 0
Apart [] = Unit
Apart (s ∷ ss) = All (λ o. o.fd ≢ s.fd) ss × Apart ss

-- A system that gives a new socket a descriptor that no open one has.
pub record NewDescriptors (os : Os) : Type 0 where
  pub new : (opened : List Socket) → All (λ o. o.fd ≢ os.descriptor opened) opened

Apart-snoc :
    (l : List Socket) (s : Socket) → Apart l → All (λ o. o.fd ≢ s.fd) l → Apart (l ++ s ∷ [])
Apart-snoc [] s apart new = (tt, tt)
Apart-snoc (x ∷ l) s apart new = (
  All-append (λ o. o.fd ≢ x.fd) l (s ∷ []) apart.0 (λ e. new.0 (sym e), tt),
  Apart-snoc l s apart.1 new.1,
)

pub fresh-Apart :
    (os : Os) (recv send port : ℕ) (n : ℕ) (opened : List Socket)
    → NewDescriptors os
    → Apart opened
    → Apart (opened ++ fresh os recv send port n opened)
fresh-Apart os recv send port zero opened new apart = subst Apart (sym (append-nil opened)) apart
fresh-Apart os recv send port (suc n) opened new apart =
    let s = ready (os.descriptor opened) recv send port in
    subst Apart (append_assoc opened (s ∷ []) (fresh os recv send port n (opened ++ s ∷ []))) (
      fresh-Apart os recv send port n (opened ++ s ∷ []) new
        (Apart-snoc opened s apart (new.new opened)))

module _ (os : Os) (recv send port : ℕ) (open_one : List Socket → Result Socket)
    (opens : (opened : List Socket) → open_one opened ≡ bound_socket os opened recv send port) where
  -- All workers have their sockets, or the first socket that is refused ends it.
  abbrev pub Opened : ℕ → List Socket → Result (List Socket) → Type 0
  Opened n opened r =
      (r ≡ ok (fresh os recv send port n opened))
      ⊎ ((k : ℕ) × (e : ServerError) × (k < n)
          × (refusal os (opened ++ fresh os recv send port k opened) recv send port ≡ some e)
          × (r ≡ err e))

  answers :
      (opened : List Socket) (o : Option ServerError)
      → refusal os opened recv send port ≡ o
      → open_one opened ≡ answered o (ready (os.descriptor opened) recv send port)
  answers opened o e =
      opens opened
      ∙ bound_socket-answered os opened recv send port
      ∙ ap (λ o'. answered o' (ready (os.descriptor opened) recv send port)) e

  pub open_sockets-Opened :
      (n : ℕ) (opened : List Socket) → Opened n opened (open_sockets open_one n opened)
  unfolding open_sockets
  open_sockets-Opened zero opened = inl refl
  open_sockets-Opened (suc n) opened = elim (Option-cases (refusal os opened recv send port)) [
    | inl e ↦
        let s = ready (os.descriptor opened) recv send port in
        rw (answers opened none e) (elim (open_sockets-Opened n (opened ++ s ∷ [])) [
          | inl all ↦ inl (rw all refl)
          | inr (k, x, few, refused, r) ↦ inr (
            suc k,
            x,
            omega (arith, few),
            subst (λ l. refusal os l recv send port ≡ some x)
                (append_assoc opened (s ∷ []) (fresh os recv send port k (opened ++ s ∷ [])))
                refused,
            rw r refl,
          )
        ])
    | inr (x, e) ↦ rw (answers opened (some x) e) (
        inr (
          0,
          x,
          omega arith,
          subst (λ l. refusal os l recv send port ≡ some x) (sym (append-nil opened)) e,
          refl,
        ))
  ]

-- A system that lets sockets share a port: it answers with no error, where every open socket and the
-- new one has set `reuse_port`.
pub record LetsShare (os : Os) : Type 0 where
  pub calls : (opened : List Socket) (c : Call) → os.answer opened c ≡ none
  pub binds :
      (opened : List Socket) (s : Socket) (port : ℕ)
      → All (λ o. o.reuse_port ≡ true) opened
      → s.reuse_port ≡ true
      → os.answer_bind opened s port ≡ none

pub LetsShare-refusal :
    (os : Os) (opened : List Socket) (recv send port : ℕ)
    → LetsShare os
    → All (λ o. o.reuse_port ≡ true) opened
    → refusal os opened recv send port ≡ none
LetsShare-refusal os opened recv send port l shared =
    rw
      (
        l.calls opened create,
        l.calls opened set_reuse_address,
        l.calls opened set_reuse_port,
        l.calls opened set_nonblocking,
        l.calls opened from_std,
        l.binds opened (sharing (os.descriptor opened) recv send) port shared refl,
      )
      refl

pub All-fresh :
    (os : Os) (recv send port : ℕ) (n : ℕ) (opened : List Socket)
    → All (λ o. o.reuse_port ≡ true) (fresh os recv send port n opened)
All-fresh os recv send port zero opened = tt
All-fresh os recv send port (suc n) opened = (
  refl,
  All-fresh os recv send port n (opened ++ ready (os.descriptor opened) recv send port ∷ []),
)

module _ (os : Os) (recv send port : ℕ) (open_one : List Socket → Result Socket)
    (opens : (opened : List Socket) → open_one opened ≡ bound_socket os opened recv send port)
    (workers : ℕ) (opened : List Socket) (spawned : List Task) where
  -- What `start` ends up with: its tasks and a receive loop for each worker, on the socket with its number, or
  -- the error of the first socket that is refused.
  abbrev pub Started : Result (List Task) → Type 0
  Started r =
      (r ≡ ok (spawned ++ receive_loops 0 (fresh os recv send port workers opened)))
      ⊎ ((k : ℕ) × (e : ServerError) × (k < workers)
          × (refusal os (opened ++ fresh os recv send port k opened) recv send port ≡ some e)
          × (r ≡ err e))

  pub start_workers-Started : Started (start_workers open_one workers opened spawned)
  unfolding start_workers
  start_workers-Started =
      elim (open_sockets-Opened os recv send port open_one opens workers opened) [
        | inl all ↦ inl (rw all refl)
        | inr (k, e, few, refused, r) ↦ inr (k, e, few, refused, rw r refl)
      ]

  pub start_workers-shared :
      LetsShare os
      → All (λ o. o.reuse_port ≡ true) opened
      → start_workers open_one workers opened spawned
        ≡ ok (spawned ++ receive_loops 0 (fresh os recv send port workers opened))
  start_workers-shared lets shared = elim start_workers-Started [
    | inl all ↦ all
    | inr (k, e, few, refused, r) ↦
        let granted =
          LetsShare-refusal os (opened ++ fresh os recv send port k opened) recv send port lets (
            All-append (λ o. o.reuse_port ≡ true) opened (fresh os recv send port k opened) shared
              (All-fresh os recv send port k opened)) in
        absurd (cc)
  ]
