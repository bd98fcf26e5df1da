-- ===== src/Comm/Socket/Leaks.antt =====
-- channel.c: which descriptors stay open when a channel is made, and a message that is not sent.
use blocks.Prelude.{
  ℕ, ◌<◌, ◌≡◌, refl, ap, ◌∙◌, Bool, true, false, ◌&&◌, List, [], ◌∷◌, Option, none, some, inl, inr,
  arith, ltb, ◌==◌, if◌then◌else◌, Bool-cases, Option-cases, ==_refl, lt→ltb, ◌>>=◌, length,
}
use blocks.Comm.Socket.{
  AddrType, addr_unix, addr_inet, tcp, Channel, Os, Answers, without, close, opened,
  set_non_blocking, bind_listen, sun_path_size, bind_free_path, mb_channel_bind_path,
  mb_channel_bind_port, mb_channel_destroy, mb_channel_reopen_unix, Attempt, is_whole, send_loop,
  mb_chanel_send,
}

unfoldable pub is_open : ℕ → List ℕ → Bool
is_open sd [] = false
is_open sd (other ∷ sds) = if other == sd then true else is_open sd sds

without_closed : (sd : ℕ) (sds : List ℕ) → is_open sd sds ≡ false → without sd sds ≡ sds
unfolding without is_open
without_closed sd [] h = refl
without_closed sd (other ∷ sds) h = elim (Bool-cases (other == sd)) [
  | inl e ↦ let p : (if other == sd then true else is_open sd sds) ≡ true = rw e refl in cc
  | inr e ↦ rw e (ap (◌∷◌ other) (without_closed sd sds (ground (arith, h, e))))
]

-- What making a channel leaves: a channel with a descriptor that was not open and is now, or the
-- descriptors as before, but for those that are lost.
abbrev pub Made : List ℕ → Option Channel → Os → Os → Type 0
Made lost none os os' = os'.open_sds ≡ lost
Made lost (some channel) os os' =
    (sd : ℕ) × (channel.sd ≡ some sd)
    × (is_open sd os.open_sds ≡ false)
    × (os'.open_sds ≡ sd ∷ os.open_sds)
    × (channel.alive ≡ true)

-- `close` of the descriptor that was opened last.
pub close-opened : (sd : ℕ) (sds : List ℕ) → is_open sd sds ≡ false → without sd (sd ∷ sds) ≡ sds
unfolding without
close-opened sd sds h = rw (==_refl sd) (without_closed sd sds h)

abbrev fits : AddrType → ℕ → List ℕ → Channel
fits t sd name = record { sd = some sd; type = t; alive = true; name = name }

bind_listen-Made :
    (answers : Answers) (sd : ℕ) (t : AddrType) (name : List ℕ) (os os' : Os)
    → is_open sd os.open_sds ≡ false
    → os'.open_sds ≡ sd ∷ os.open_sds
    → Made os.open_sds
        (bind_listen answers sd (fits t sd name) os').0
        os
        (bind_listen answers sd (fits t sd name) os').1
unfolding bind_listen close
bind_listen-Made answers sd t name os os' h e = elim (Bool-cases answers.bind) [
  | inr refused ↦ rw refused (ap (without sd) e ∙ close-opened sd os.open_sds h)
  | inl is_bound ↦ elim (Bool-cases answers.listen) [
    | inr refused ↦ rw (is_bound, refused) (ap (without sd) e ∙ close-opened sd os.open_sds h)
    | inl listens ↦ rw (is_bound, listens) (sd, refl, h, e, refl)
  ]
]

-- What `set_non_blocking` leaves of a descriptor that was opened just before.
abbrev non_blocking : Answers → Bool
non_blocking answers = answers.setsockopt && answers.ioctl

set_non_blocking-strict :
    (answers : Answers) (sd : ℕ) (os : Os)
    → is_open sd os.open_sds ≡ false
    → set_non_blocking answers sd true (opened sd os)
      ≡ (if non_blocking answers then (true, opened sd os) else (false, os))
unfolding set_non_blocking close
set_non_blocking-strict answers sd os h = elim (Bool-cases answers.setsockopt) [
  | inr refused ↦ rw (refused, close-opened sd os.open_sds h) refl
  | inl is_set ↦ elim (Bool-cases answers.ioctl) [
    | inr refused ↦ rw (is_set, refused, close-opened sd os.open_sds h) refl
    | inl is_set' ↦ rw (is_set, is_set')
  ]
]

module _ (answers : Answers) (os : Os)
    (fresh : (sd : ℕ) → answers.socket ≡ some sd → is_open sd os.open_sds ≡ false) where
  pub port-Made :
      Made os.open_sds (mb_channel_bind_port answers os).0 os (mb_channel_bind_port answers os).1
  unfolding mb_channel_bind_port set_non_blocking bind_listen
  port-Made = elim (Option-cases answers.socket) [
    | inl none_e ↦ rw none_e refl
    | inr (sd, some_e) ↦
        let e = set_non_blocking-strict answers sd os (fresh sd some_e) in
        elim (Bool-cases (non_blocking answers)) [
          | inr refused ↦ rw (some_e, e, refused) refl
          | inl is_set ↦
              rw (some_e, e, is_set)
                (bind_listen-Made answers sd addr_inet tcp os (opened sd os) (fresh sd some_e) refl)
        ]
  ]

  -- The descriptors behind a call that makes no channel: where the path is busy, the new one is lost.
  abbrev pub left : Option ℕ → List ℕ
  left none = os.open_sds
  left (some sd) = if non_blocking answers && answers.connect then sd ∷ os.open_sds else os.open_sds

  path-Made :
      (path : List ℕ)
      → length path < sun_path_size
      → (channel : Option Channel) × (os' : Os) × (mb_channel_bind_path answers path os
          ≡ some (channel, os'))
        × Made (left answers.socket) channel os os'
  unfolding mb_channel_bind_path bind_free_path set_non_blocking bind_listen
  path-Made path short = elim (Option-cases answers.socket) [
    | inl none_e ↦ (none, os, rw none_e, rw none_e refl)
    | inr (sd, some_e) ↦
        let e = set_non_blocking-strict answers sd os (fresh sd some_e) in
        let l = lt→ltb (length path) sun_path_size short in
        elim (Bool-cases (non_blocking answers)) [
          | inr refused ↦ (none, os, rw (some_e, e, refused), rw (some_e, refused) refl)
          | inl is_set ↦ elim (Bool-cases answers.connect) [
            | inl busy ↦ (
              none,
              opened sd os,
              rw (some_e, e, is_set, l, busy),
              rw (some_e, is_set, busy) refl,
            )
            | inr free ↦
                let os' : Os = record (opened sd os) { unlinked = some path } in
                let c = fits addr_unix sd path in
                let result = bind_listen answers sd c os' in
                (
                  result.0,
                  result.1,
                  rw (some_e, e, is_set, l, free),
                  rw (some_e, is_set, free)
                      (bind_listen-Made answers sd addr_unix path os os' (fresh sd some_e) refl),
                )
          ]
        ]
  ]

  -- A call that makes a channel leaves it alive and its descriptor open; one that does not leaves the
  -- descriptors that were open before, except where the path is busy: then the new one stays open too. The
  -- path fits into `sun_path`, and `socket` gives a descriptor that is not open.
  pub binds-Made :
      (path : List ℕ)
      → length path < sun_path_size
      → Made os.open_sds (mb_channel_bind_port answers os).0 os (mb_channel_bind_port answers os).1
        × (channel : Option Channel) × (os' : Os) × (mb_channel_bind_path answers path os
            ≡ some (channel, os'))
        × Made (left answers.socket) channel os os'
  binds-Made path short =
      let (channel, os', e, made) = path-Made path short in (port-Made, channel, os', e, made)

reopen_refused :
    (size : ℕ) (answers : Answers) (channel : Channel) (os : Os) (socket : Option ℕ)
    (second : Attempt)
    → answers.connect ≡ false
    → (mb_channel_reopen_unix (record answers { socket = socket }) (some channel) os
        >>= λ (_, pointer, os). send_loop size (second ∷ []) pointer os)
      ≡ none
unfolding mb_channel_reopen_unix mb_channel_destroy send_loop
reopen_refused size answers channel os none second h = refl
reopen_refused size answers channel os (some sd) second h =
    elim (Bool-cases (ltb (length channel.name) sun_path_size)) [
      | inl short ↦ rw (short, h)
      | inr long ↦ rw long
    ]

-- Where `send` does not take the whole message and the channel cannot connect again, the call goes on with
-- a channel that was freed, whatever the system answers then.
pub mb_chanel_send_faults :
    (size : ℕ) (first second : Attempt) (received : Option (List ℕ)) (channel : Channel) (os : Os)
    → is_whole size first.sent ≡ false
    → first.answers.connect ≡ false
    → mb_chanel_send size first second received (some channel) os ≡ none
unfolding mb_chanel_send send_loop
mb_chanel_send_faults size first second received channel os e h =
    rw (e, reopen_refused size first.answers channel os first.answers.socket second h)
