-- ===== src/Stdin/Buffer.antt =====
-- dev_stdin_write of lab8/kern/fs/devs/dev_stdin.c on the sequence of unread characters.
use nku_os_ucore.Common.{
  ℕ, ◌+◌, ◌%◌, ◌≤◌, ◌<◌, ◌≡◌, refl, sym, ap, ◌∙◌, subst, Bool, true, false, Bool-cases, ◌==◌, ltb,
  if◌then◌else◌, inl, inr, arith, List, [], ◌∷◌, ◌++◌, length,
}
use nku_os_ucore.Stdin.{
  Stdin, stdin_bufsize, put_char, stdin_device_init, dev_stdin_write, write_all,
}

-- The characters stand in the buffer from the position `r` on.
abbrev pub Contents : (ℕ → ℕ) → ℕ → List ℕ → Type 0
Contents b r [] = Unit {0}
Contents b r (c ∷ cs) = (b (r % 4096) ≡ c) × Contents b (r + 1) cs

-- The unread characters.
pub record Unread (s : Stdin) (cs : List ℕ) : Type 0 where
  pub contents : Contents s.stdin_buffer s.p_rpos cs
  pub ends : s.p_wpos ≡ s.p_rpos + length cs
  pub fits : length cs ≤ 4096

put_other :
    (b : ℕ → ℕ) (r w c : ℕ)
    → r < w
    → w < r + 4096
    → put_char b (w % 4096) c (r % 4096) ≡ b (r % 4096)
put_other b r w c h k = ground arith

Contents-put :
    (b : ℕ → ℕ) (r w c : ℕ) (cs : List ℕ)
    → Contents b r cs
    → r + length cs ≤ w
    → w < r + 4096
    → Contents (put_char b (w % 4096) c) r cs
Contents-put b r w c [] h k l = tt
Contents-put b r w c (x ∷ cs) (h, hs) k l = (
  put_other b r w c (omega arith) l ∙ h,
  Contents-put b (r + 1) w c cs hs (omega arith) (omega arith),
)

Contents-append :
    (b : ℕ → ℕ) (r c : ℕ) (cs : List ℕ)
    → Contents b r cs
    → b ((r + length cs) % 4096) ≡ c
    → Contents b r (cs ++ (c ∷ []))
Contents-append b r c [] h e = (ap (λ z. b (z % 4096)) (omega arith) ∙ e, tt)
Contents-append b r c (x ∷ cs) (h, hs) e =
    (h, Contents-append b (r + 1) c cs hs (ap (λ z. b (z % 4096)) (omega arith) ∙ e))

-- The sequence when a character arrives. On a full buffer it takes the place of the first one.
abbrev pub arrive : ℕ → List ℕ → List ℕ
arrive c [] = c ∷ []
arrive c (x ∷ cs) = if ltb (length (x ∷ cs)) 4096 then (x ∷ cs) ++ (c ∷ []) else c ∷ cs

abbrev pub heard : ℕ → List ℕ → List ℕ
heard c cs = if c == 0 then cs else arrive c cs

put_here : (b : ℕ → ℕ) (i c : ℕ) → put_char b i c i ≡ c
put_here b i c = ground arith

-- The state behind a character that is not 0.
abbrev written : ℕ → Stdin → Stdin
written c s = record s {
  stdin_buffer = put_char s.stdin_buffer (s.p_wpos % stdin_bufsize) c;
  p_wpos = if ltb s.p_wpos (s.p_rpos + stdin_bufsize) then s.p_wpos + 1 else s.p_wpos;
}

moved_end : (r w : ℕ) → w < r + 4096 → (if ltb w (r + 4096) then w + 1 else w) ≡ w + 1
moved_end r w h = ground arith

kept_end : (r w : ℕ) → w ≡ r + 4096 → (if ltb w (r + 4096) then w + 1 else w) ≡ w
kept_end r w h = ground arith

length-one : (c : ℕ) (cs : List ℕ) → length (cs ++ (c ∷ [])) ≡ length cs + 1
length-one c [] = refl
length-one c (x ∷ cs) = rw (length-one c cs) (omega arith)

-- There is room: the character becomes the last one.
written-last :
    (c : ℕ) (s : Stdin) (cs : List ℕ)
    → Unread s cs
    → length cs < 4096
    → Unread (written c s) (cs ++ (c ∷ []))
written-last c s cs u h =
    let room : s.p_wpos < s.p_rpos + 4096 =
      subst (λ w. w < s.p_rpos + 4096) (sym u.ends) (omega arith) in
    record {
      contents =
          Contents-append (put_char s.stdin_buffer (s.p_wpos % 4096) c) s.p_rpos c cs
            (Contents-put s.stdin_buffer s.p_rpos s.p_wpos c cs u.contents (omega (arith, u.ends))
              room)
            (ap (λ w. put_char s.stdin_buffer (s.p_wpos % 4096) c (w % 4096)) (sym u.ends)
              ∙ put_here s.stdin_buffer (s.p_wpos % 4096) c);
      ends =
          moved_end s.p_rpos s.p_wpos room
          ∙ ap (λ w. w + 1) u.ends
          ∙ plus_assoc s.p_rpos (length cs)
          ∙ ap (λ n. s.p_rpos + n) (sym (length-one c cs));
      fits = subst (λ n. n ≤ 4096) (sym (length-one c cs)) (omega arith);
    }
  where
    plus_assoc : (a b : ℕ) → a + b + 1 ≡ a + (b + 1)
    plus_assoc a b = omega arith

-- There is none: the character takes the place of the first one.
written-first :
    (c x : ℕ) (s : Stdin) (cs : List ℕ)
    → Unread s (x ∷ cs)
    → length (x ∷ cs) ≡ 4096
    → Unread (written c s) (c ∷ cs)
written-first c x s cs u h =
    let full : s.p_wpos ≡ s.p_rpos + 4096 = u.ends ∙ ap (λ n. s.p_rpos + n) h in
    record {
      contents = (
        same_place s.stdin_buffer s.p_rpos s.p_wpos c full,
        Contents-put s.stdin_buffer (s.p_rpos + 1) s.p_wpos c cs u.contents.1 (omega arith)
            (omega arith),
      );
      ends = kept_end s.p_rpos s.p_wpos full ∙ u.ends;
      fits = u.fits;
    }
  where
    same_place : (b : ℕ → ℕ) (r w c : ℕ) → w ≡ r + 4096 → put_char b (w % 4096) c (r % 4096) ≡ c
    same_place b r w c h = ground arith

-- The calls of `wakeup_queue` change no character.
Unread-wakeups :
    (s : Stdin) (n : ℕ) (cs : List ℕ) → Unread s cs → Unread (record s { wakeups = n }) cs
Unread-wakeups s n cs u = record { contents = u.contents; ends = u.ends; fits = u.fits }

written-Unread :
    (c : ℕ) (s : Stdin) (cs : List ℕ) → Unread s cs → Unread (written c s) (arrive c cs)
written-Unread c s [] u = written-last c s [] u (omega arith)
written-Unread c s (x ∷ cs) u = elim (Bool-cases (ltb (length (x ∷ cs)) 4096)) [
  | inl h ↦ rw h (written-last c s (x ∷ cs) u (ltb_lt (length (x ∷ cs)) h))
  | inr h ↦ rw h (written-first c x s cs u (ltb_full (length (x ∷ cs)) u.fits h))
]
  where
    ltb_lt : (n : ℕ) → ltb n 4096 ≡ true → n < 4096
    ltb_lt n h = ground arith

    ltb_full : (n : ℕ) → n ≤ 4096 → ltb n 4096 ≡ false → n ≡ 4096
    ltb_full n k h = ground arith

-- Let the buffer hold the unread characters `cs`, at most 4096. `dev_stdin_write` of the character
-- 0 changes nothing; another one becomes the last of the unread characters if they are fewer than
-- 4096, and else takes the place of the first of them.
pub dev_stdin_write-Unread :
    (c : ℕ) (empty : Bool) (s : Stdin) (cs : List ℕ)
    → Unread s cs
    → Unread (dev_stdin_write c empty s) (heard c cs)
unfolding dev_stdin_write
dev_stdin_write-Unread c empty s cs u = elim (Bool-cases (c == 0)) [
  | inl z ↦ rw z u
  | inr z ↦ rw z (told empty)
]
  where
    told :
        (b : Bool)
        → Unread
            (if b then written c s else record (written c s) { wakeups = s.wakeups + 1 })
            (arrive c cs)
    told true = written-Unread c s cs u
    told false =
        Unread-wakeups (written c s) (s.wakeups + 1) (arrive c cs) (written-Unread c s cs u)

-- The sequence when characters arrive.
abbrev pub heard_all : List (ℕ × Bool) → List ℕ → List ℕ
heard_all [] cs = cs
heard_all ((c, e) ∷ es) cs = heard_all es (heard c cs)

pub write_all-Unread :
    (es : List (ℕ × Bool)) (s : Stdin) (cs : List ℕ)
    → Unread s cs
    → Unread (write_all es s) (heard_all es cs)
write_all-Unread [] s cs u = u
write_all-Unread ((c, e) ∷ es) s cs u =
    write_all-Unread es (dev_stdin_write c e s) (heard c cs) (dev_stdin_write-Unread c e s cs u)

-- The buffer is empty at first.
pub stdin_device_init-Unread : (s : Stdin) → Unread (stdin_device_init s) []
unfolding stdin_device_init
stdin_device_init-Unread s = record { contents = tt; ends = refl; fits = omega arith }
