-- ===== src/File/Counts.antt =====
-- The counts of fileAccess.c: every file is counted by those who hold it, every pipe by the files.
use tp2_so_g.Base.{
  ℕ, zero, suc, ◌+◌, ◌≡◌, ◌≢◌, ◌≤◌, ◌<◌, refl, ◌∙◌, sym, ap, subst, Option, none, some, arith,
  update, update_self, update_ne, same_or_not, if◌then◌else◌, inl, inr, sum_below, sum_below-except,
  sum_below-more, sum_below-same,
}
use tp2_so_g.Base.Int.{pos, inc, dec}
use tp2_so_g.Kernel.{Kernel, File}
use tp2_so_g.Kernel.Action.{put_file}
use tp2_so_g.Pipe.Counts.{IsPiped}
use tp2_so_g.Pipe.Wake.{fd_table_of}
use tp2_so_g.File.Holders.{
  at_target, points_to, writes_to, pipe_refs, pipe_writers, IsPiped-same, drops_ref, drops_writer,
}
use tp2_so_g.File.{can_write, free_file_access, add_file_ref, remove_file_ref}

-- A file whose count is the one given; nobody holds a file that is gone.
abbrev pub FileFits : ℕ → Option File → Type 0
FileFits n none = n ≡ 0
FileFits n (some x) = x.ref_count ≡ pos n

-- `held f` are the references to the file `f`.
pub record IsFiled (held : ℕ → ℕ) (k : Kernel) : Type 0 where
  pub piped : IsPiped (pipe_refs k) (pipe_writers k) k
  pub counted : (f : ℕ) → FileFits (held f) (k.files f)
  pub filed : (f : ℕ) → k.asked ≤ f → k.files f ≡ none

pub fits_file :
    (held : ℕ → ℕ) (f : ℕ) (x : File) (k : Kernel)
    → IsFiled held k
    → k.files f ≡ some x
    → x.ref_count ≡ pos (held f)
fits_file held f x k i e = subst (FileFits (held f)) e (i.counted f)

below_asked :
    (held : ℕ → ℕ) (f : ℕ) (x : File) (k : Kernel)
    → IsFiled held k
    → k.files f ≡ some x
    → f < k.asked
below_asked held f x k i e = ground (arith, i.filed f)

-- Without the file `f`, what it contributed is missing.
pub sum_without :
    (weight : Option File → ℕ) (files : ℕ → Option File) (f n : ℕ) (x : File)
    → weight none ≡ 0
    → files f ≡ some x
    → f < n
    → sum_below (λ g. weight (files g)) n
      ≡ sum_below (λ g. weight (update files f none g)) n + weight (some x)
sum_without weight files f n x z e l =
    let s =
      sum_below-except (λ g. weight (files g)) (λ g. weight (update files f none g)) f n
        (λ g ne. ap weight (sym (update_ne files f g none ne))) l in
    let gone : weight (update files f none f) ≡ 0 = ap weight (update_self files f none) ∙ z in
    let here : weight (files f) ≡ weight (some x) = ap weight e in omega (arith, s, gone, here)

-- Files beyond those asked for contribute nothing.
pub sum_asked :
    (weight : Option File → ℕ) (files : ℕ → Option File) (n m : ℕ)
    → weight none ≡ 0
    → n ≤ m
    → ((f : ℕ) → n ≤ f → files f ≡ none)
    → sum_below (λ g. weight (files g)) m ≡ sum_below (λ g. weight (files g)) n
sum_asked weight files n m z l h =
    sum_below-more (λ g. weight (files g)) n m l (λ g b. ap weight (h g b) ∙ z)

pub IsPiped-file :
    {refs writers : ℕ → ℕ} {k : Kernel} (f : ℕ) (o : Option File)
    → IsPiped refs writers k
    → IsPiped refs writers (put_file f o k)
IsPiped-file f o i = record {
  order = record {
    sound = record {
      exact = i.order.sound.exact;
      owned = i.order.sound.owned;
      inside = i.order.sound.inside;
      alone = i.order.sound.alone;
      idle_up = i.order.sound.idle_up;
    };
    memory = i.order.memory;
    at_rest = i.order.at_rest;
  };
  owner = i.owner;
  role = i.role;
  fits = i.fits;
}

-- A file of which only the count changes contributes the same to its pipe.
sum_recount :
    (weight : Option File → ℕ) (files : ℕ → Option File) (f n : ℕ) (o : Option File)
    → weight o ≡ weight (files f)
    → sum_below (λ g. weight (files g)) n ≡ sum_below (λ g. weight (update files f o g)) n
sum_recount weight files f n o e =
    sum_below-same (λ g. weight (files g)) (λ g. weight (update files f o g)) n
      λ g l. elim (same_or_not f g) [
        | inl s ↦
            subst (λ h. weight (files h) ≡ weight (update files f o h)) s
              (sym (ap weight (update_self files f o) ∙ e))
        | inr ne ↦ ap weight (sym (update_ne files f g o ne))
      ]

-- The count of one file changes, and nothing else.
recount :
    (held held' : ℕ → ℕ) (f : ℕ) (x : File) (k : Kernel)
    → IsFiled held k
    → k.files f ≡ some x
    → ((g : ℕ) → f ≢ g → held' g ≡ held g)
    → IsFiled held' (put_file f (some (record x { ref_count = pos (held' f) })) k)
recount held held' f x k i e same =
    let o = some (record x { ref_count = pos (held' f) }) in
    record {
      piped =
          IsPiped-same (pipe_refs k) (pipe_writers k) (pipe_refs (put_file f o k))
            (pipe_writers (put_file f o k)) (put_file f o k)
            (λ p. sum_recount (points_to p) k.files f k.asked o (ap (points_to p) (sym e)))
            (λ p. sum_recount (writes_to p) k.files f k.asked o (ap (writes_to p) (sym e)))
            (IsPiped-file f o i.piped);
      counted = λ g. elim (same_or_not f g) [
        | inl s ↦
            subst (λ h. FileFits (held' h) (update k.files f o h)) s
              (subst (FileFits (held' f)) (sym (update_self k.files f o)) refl)
        | inr ne ↦
            let at : FileFits (held g) (k.files g) = i.counted g in
            rw (same g ne, update_ne k.files f g o ne) at
      ];
      filed = λ g l. ground (arith, i.filed g);
    }

-- What the calls on files leave alone: the descriptors.
pub record Apart (k k' : Kernel) : Type 0 where
  pub fds_kept : (i : ℕ) → fd_table_of (k'.table i) ≡ fd_table_of (k.table i)
  pub more_asked : k.asked ≤ k'.asked

-- The state after both counts of the pipe: taking the file out then restores the accounts.
take_out :
    (held : ℕ → ℕ) (f : ℕ) (k k2 : Kernel)
    → IsFiled held k
    → held f ≡ 0
    → k2.files ≡ k.files
    → k.asked ≤ k2.asked
    → IsPiped (pipe_refs (put_file f none k)) (pipe_writers (put_file f none k)) k2
    → IsFiled held (put_file f none k2)
take_out held f k k2 i z same more p =
    let gone = update k.files f none in
    let later : (g : ℕ) → k.asked ≤ g → gone g ≡ none = λ g l. ground (arith, i.filed g) in
    let cut : update k2.files f none ≡ gone = ap (λ m. update m f none) same in
    let recounted : (weight : Option File → ℕ)
        → weight none ≡ 0
        → sum_below (λ g. weight (gone g)) k.asked
          ≡ sum_below (λ g. weight (update k2.files f none g)) k2.asked =
      λ weight w. sym (
        ap (λ m. sum_below (λ g. weight (m g)) k2.asked) cut
        ∙ sum_asked weight gone k.asked k2.asked w more later) in
    record {
      piped =
          IsPiped-same (pipe_refs (put_file f none k)) (pipe_writers (put_file f none k))
            (pipe_refs (put_file f none k2)) (pipe_writers (put_file f none k2))
            (put_file f none k2) (λ b. recounted (points_to b) refl)
            (λ b. recounted (writes_to b) refl) (IsPiped-file f none p);
      counted = λ g.
          subst (λ m. FileFits (held g) (m g)) (sym cut)
            (elim (same_or_not f g) [
              | inl s ↦
                  subst (λ h. FileFits (held h) (gone h)) s
                    (subst (FileFits (held f)) (sym (update_self k.files f none)) z)
              | inr ne ↦
                  subst (FileFits (held g)) (sym (update_ne k.files f g none ne)) (i.counted g)
            ]);
      filed = λ g l. subst (λ m. m g ≡ none) (sym cut) (later g (omega (arith, l, more)));
    }

pub free_file-IsFiled :
    (held : ℕ → ℕ) (f : ℕ) (x : File) (k : Kernel)
    → IsFiled held k
    → k.files f ≡ some x
    → held f ≡ 0
    → (k' : Kernel) × (free_file_access (some f) k ≡ some (tt, k')) × Apart k k' × IsFiled held k'
unfolding free_file_access
free_file-IsFiled held f x k i e z =
    let l = below_asked held f x k i e in
    let out = put_file f none k in
    let less_w : (p : ℕ)
        → pipe_writers k p
          ≡ pipe_writers out p + (if can_write x.flags then at_target p x.pipe else 0) =
      λ p. sum_without (writes_to p) k.files f k.asked x refl e l in
    let less_r : (p : ℕ) → pipe_refs k p ≡ pipe_refs out p + at_target p x.pipe =
      λ p. sum_without (points_to p) k.files f k.asked x refl e l in
    let (k1, e1, o1, i1) =
      drops_writer x.pipe (can_write x.flags) (pipe_refs k) (pipe_writers k) (pipe_writers out) k
        less_w (λ p. omega (arith, less_r p)) i.piped in
    let (k2, e2, o2, i2) =
      drops_ref x.pipe (pipe_refs k) (pipe_refs out) (pipe_writers out) k1 less_r i1 in
    (
      put_file f none k2,
      ground (arith, e1, e2),
      record {
        fds_kept = λ j. o2.fds_kept j ∙ o1.fds_kept j;
        more_asked = omega (arith, o1.more_asked, o2.more_asked);
      },
      take_out held f k k2 i z (o2.files_kept ∙ o1.files_kept)
          (omega (arith, o1.more_asked, o2.more_asked)) i2,
    )

pub recount_to :
    (held : ℕ → ℕ) (f n : ℕ) (x y : File) (k : Kernel)
    → IsFiled held k
    → k.files f ≡ some x
    → y ≡ record x { ref_count = pos n }
    → IsFiled (update held f n) (put_file f (some y) k)
recount_to held f n x y k i e same =
    let m : update held f n f ≡ n = update_self held f n in
    let made : record x { ref_count = pos (update held f n f) } ≡ y =
      ap (λ c. record x { ref_count = pos c }) m ∙ sym same in
    subst (λ y. IsFiled (update held f n) (put_file f (some y) k)) made
      (recount held (update held f n) f x k i e (λ g ne. update_ne held f g n ne))

put_Apart : (f : ℕ) (o : Option File) (k : Kernel) → Apart k (put_file f o k)
put_Apart f o k = record { fds_kept = λ i. refl; more_asked = omega arith }

pub remove_file_ref-IsFiled :
    (held : ℕ → ℕ) (f n : ℕ) (x : File) (k : Kernel)
    → IsFiled held k
    → k.files f ≡ some x
    → held f ≡ suc n
    → (k' : Kernel) × (remove_file_ref (some f) k ≡ some (tt, k'))
      × Apart k k'
      × IsFiled (update held f n) k'
unfolding remove_file_ref
remove_file_ref-IsFiled held f n x k i e c =
    let y = record x { ref_count = dec x.ref_count } in
    let r = fits_file held f x k i e in
    let lower : y ≡ record x { ref_count = pos n } = ground (arith, r, c) in
    let i1 : IsFiled (update held f n) (put_file f (some y) k) =
      recount_to held f n x y k i e lower in
    elim n
        as (λ n.
          held f ≡ suc n
          → IsFiled (update held f n) (put_file f (some y) k)
          → (k' : Kernel) × (remove_file_ref (some f) k ≡ some (tt, k'))
            × Apart k k'
            × IsFiled (update held f n) k') [
              | zero ↦ λ c i1.
                  let (k2, e2, a, i2) =
                    free_file-IsFiled (update held f 0) f y (put_file f (some y) k) i1
                      (update_self k.files f (some y)) (update_self held f 0) in
                  (
                    k2,
                    ground (arith, e2, r, c),
                    record { fds_kept = a.fds_kept; more_asked = a.more_asked },
                    i2,
                  )
              | suc m ↦
                  λ c i1. (put_file f (some y) k, ground (arith, r, c), put_Apart f (some y) k, i1)
            ]
      c i1

pub add_file_ref-IsFiled :
    (held : ℕ → ℕ) (f : ℕ) (x : File) (k : Kernel)
    → IsFiled held k
    → k.files f ≡ some x
    → (k' : Kernel) × (add_file_ref (some f) k ≡ some (tt, k'))
      × Apart k k'
      × IsFiled (update held f (suc (held f))) k'
unfolding add_file_ref
add_file_ref-IsFiled held f x k i e =
    let y = record x { ref_count = inc x.ref_count } in
    let r = fits_file held f x k i e in
    let higher : y ≡ record x { ref_count = pos (suc (held f)) } = ground (arith, r) in
    (
      put_file f (some y) k,
      ground arith,
      put_Apart f (some y) k,
      recount_to held f (suc (held f)) x y k i e higher,
    )
