-- ===== src/Smb/Trim.antt =====
-- What `strings.TrimSpace` leaves off in internal/smb/sender.go.
use piping.Prelude.{
  ℕ, zero, suc, ==_iff, true, List, [], ◌∷◌, ◌++◌, length, map, drop, Among, ◌≡◌, refl, sym, ap,
  ◌∙◌, subst, arith, inl, inr, Bool-cases,
}
use mathlib.Core.List.{reverse, append_assoc, reverse-append, reverse-reverse}
use piping.Url.{starts}
use piping.Smb.{spaces, space_length, trim_front, trim_space}

-- A text that is made of the given spaces.
pub data Blank (ps : List (List ℕ)) : List ℕ → Type 0 where
  blank_end : Blank ps []
  blank_space : (p s : List ℕ) → Among p ps → Blank ps s → Blank ps (p ++ s)

drop-nil : (n : ℕ) → drop {A = ℕ} n [] ≡ []
drop-nil zero = refl
drop-nil (suc n) = refl

starts-append : (p s : List ℕ) → starts p s ≡ true → s ≡ p ++ drop (length p) s
unfolding starts
starts-append [] s h = refl
starts-append (c ∷ p) [] h = cc
starts-append (c ∷ p) (d ∷ s) h =
    let same : d ≡ c = (==_iff d c).0 (ground arith) in
    ap (λ t. d ∷ t) (starts-append p s (ground arith)) ∙ ap (λ x. x ∷ p ++ drop (length p) s) same

-- The space that was found.
record Found (ps : List (List ℕ)) (s : List ℕ) (n : ℕ) : Type 0 where
  space : List ℕ
  among : Among space ps
  here : s ≡ space ++ drop n s

space_length-Found :
    (ps : List (List ℕ)) (s : List ℕ) (k : ℕ) → space_length ps s ≡ suc k → Found ps s (suc k)
unfolding space_length
space_length-Found [] s k h = cc
space_length-Found (p ∷ ps) s k h = elim (Bool-cases (starts p s)) [
  | inl e ↦
      let long : length p ≡ suc k = rw e at h in
      record {
        space = p;
        among = inl refl;
        here = subst (λ n. s ≡ p ++ drop n s) long (starts-append p s e);
      }
  | inr e ↦
      let f = space_length-Found ps s k (rw e at h) in
      record { space = f.space; among = inr f.among; here = f.here }
]

-- What is left off in front, behind the `n` bytes that are to go anyway.
record Front (ps : List (List ℕ)) (s left : List ℕ) : Type 0 where
  off : List ℕ
  blank : Blank ps off
  whole : s ≡ off ++ left

trim_front-Front :
    (ps : List (List ℕ)) (n : ℕ) (s : List ℕ) → Front ps (drop n s) (trim_front ps n s)
unfolding trim_front
trim_front-Front ps n [] = record { off = []; blank = blank_end; whole = drop-nil n }
trim_front-Front ps (suc n) (c ∷ s) = trim_front-Front ps n s
trim_front-Front ps zero (c ∷ s) = go (space_length ps (c ∷ s)) refl (λ k. trim_front-Front ps k s)
  where
    go :
        (n : ℕ)
        → space_length ps (c ∷ s) ≡ n
        → ((k : ℕ) → Front ps (drop k s) (trim_front ps k s))
        → Front ps (c ∷ s) (trim_front ps zero (c ∷ s))
    go zero e rest = rw (e, trim_front) (record { off = []; blank = blank_end; whole = refl })
    go (suc k) e rest =
        let f = space_length-Found ps (c ∷ s) k e in
        let r = rest k in
        rw (e, trim_front)
          (record {
            off = f.space ++ r.off;
            blank = blank_space f.space r.off f.among r.blank;
            whole =
                f.here
                ∙ ap (λ t. f.space ++ t) r.whole
                ∙ sym (append_assoc f.space r.off (trim_front ps k s));
          })

-- A text is what `TrimSpace` gives, between white space.
pub record IsTrimmed (s t : List ℕ) : Type 0 where
  pub front : List ℕ
  pub back : List ℕ
  pub front_blank : Blank spaces front
  pub back_blank : Blank (map reverse spaces) (reverse back)
  pub whole : s ≡ front ++ (t ++ back)

pub trim_space-IsTrimmed : (s : List ℕ) → IsTrimmed s (trim_space s)
unfolding trim_space
trim_space-IsTrimmed s =
    let s1 = trim_front spaces zero s in
    let f = trim_front-Front spaces zero s in
    let b = trim_front-Front (map reverse spaces) zero (reverse s1) in
    record {
      front = f.off;
      back = reverse b.off;
      front_blank = f.blank;
      back_blank = subst (Blank (map reverse spaces)) (sym (reverse-reverse b.off)) b.blank;
      whole =
          f.whole
          ∙ ap (λ t. f.off ++ t)
              (sym (reverse-reverse s1)
                ∙ ap reverse b.whole
                ∙ reverse-append b.off (trim_front (map reverse spaces) zero (reverse s1)));
    }
