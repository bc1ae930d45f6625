-- ===== src/Registry/Listing.antt =====
-- List and Len of registry.go: each registered name once, in the order of the bytes.
use schemix.Prelude.{
  suc, Text, text_eq, text_eq_iff, ◌≡◌, refl, ap, ◌∙◌, Bool, true, false, ◌||◌, none, some, List,
  [], ◌∷◌, any, All, All-map, length, arith, if-case,
}
use schemix.GoLib.{GoLib}
use schemix.Fallible.{Fallible, ok, fail}
use schemix.Registry.{
  Registry, text_lt, insert_name, sort_names, file, unfile, get, has, put, unregister, register,
  register_built, names_of, list_names, len,
}
use schemix.Registry.Runs.{Call, register_call, put_call, unregister_call, call, run}

abbrev pub is_in : Text → List Text → Bool
is_in x xs = any (text_eq x) xs

-- Each name stands before all that follow it.
abbrev pub Ascending : List Text → Type 0
Ascending [] = Unit
Ascending (x ∷ xs) = All (λ y. text_lt x y ≡ true) xs × Ascending xs

text_lt_trans : (a b c : Text) → text_lt a b ≡ true → text_lt b c ≡ true → text_lt a c ≡ true
unfolding text_lt
text_lt_trans [] [] c h k = absurd (cc)
text_lt_trans a (y ∷ b) [] h k = absurd (cc)
text_lt_trans [] (y ∷ b) (z ∷ c) h k = refl
text_lt_trans (x ∷ a) [] c h k = absurd (cc)
text_lt_trans (x ∷ a) (y ∷ b) (z ∷ c) h k = ground (arith, text_lt_trans a b c)

text_lt_total : (a b : Text) → text_lt b a ≡ false → text_eq a b ≡ false → text_lt a b ≡ true
unfolding text_lt text_eq
text_lt_total [] [] h k = absurd (cc)
text_lt_total [] (y ∷ b) h k = refl
text_lt_total (x ∷ a) [] h k = absurd (cc)
text_lt_total (x ∷ a) (y ∷ b) h k = ground (arith, text_lt_total a b)

All-insert_name :
    (z x : Text) (ys : List Text)
    → text_lt z x ≡ true
    → All (λ y. text_lt z y ≡ true) ys
    → All (λ y. text_lt z y ≡ true) (insert_name x ys)
unfolding insert_name
All-insert_name z x [] h k = (h, tt)
All-insert_name z x (y ∷ ys) h (p, k) =
    if-case (All (λ y'. text_lt z y' ≡ true)) (text_lt y x) _ _
      (λ _. (p, All-insert_name z x ys h k)) (λ _. (h, (p, k)))

insert_name-Ascending :
    (x : Text) (ys : List Text) → is_in x ys ≡ false → Ascending ys → Ascending (insert_name x ys)
unfolding insert_name
insert_name-Ascending x [] h k = (tt, tt)
insert_name-Ascending x (y ∷ ys) h (p, k) =
    if-case Ascending (text_lt y x) _ _
      (λ before. (All-insert_name y x ys before p, insert_name-Ascending x ys (ground arith) k))
      (λ after.
        (let first = text_lt_total x y after (ground arith) in
          (
            (
              first,
              All-map (λ z. text_lt y z ≡ true) (λ z. text_lt x z ≡ true) ys
                  (λ z below. text_lt_trans x y z first below) p,
            ),
            (p, k),
          )))

is_in-insert_name :
    (z x : Text) (ys : List Text) → is_in z (insert_name x ys) ≡ (text_eq z x || is_in z ys)
unfolding insert_name
is_in-insert_name z x [] = refl
is_in-insert_name z x (y ∷ ys) = ground (arith, is_in-insert_name z x ys)

length-insert_name : (x : Text) (ys : List Text) → length (insert_name x ys) ≡ suc (length ys)
unfolding insert_name
length-insert_name x [] = refl
length-insert_name x (y ∷ ys) = ground (arith, length-insert_name x ys)

is_in-sort_names : (z : Text) (xs : List Text) → is_in z (sort_names xs) ≡ is_in z xs
unfolding sort_names
is_in-sort_names z [] = refl
is_in-sort_names z (x ∷ xs) =
    is_in-insert_name z x (sort_names xs) ∙ ap (λ b. text_eq z x || b) (is_in-sort_names z xs)

length-sort_names : (xs : List Text) → length (sort_names xs) ≡ length xs
unfolding sort_names
length-sort_names [] = refl
length-sort_names (x ∷ xs) = length-insert_name x (sort_names xs) ∙ ap suc (length-sort_names xs)

-- no name stands twice
abbrev pub Distinct : List Text → Type 0
Distinct [] = Unit
Distinct (x ∷ xs) = (is_in x xs ≡ false) × Distinct xs

sort_names-Ascending : (xs : List Text) → Distinct xs → Ascending (sort_names xs)
unfolding sort_names
sort_names-Ascending [] h = tt
sort_names-Ascending (x ∷ xs) (new, h) =
    insert_name-Ascending x (sort_names xs) (is_in-sort_names x xs ∙ new)
      (sort_names-Ascending xs h)

module _ {ℓ} {V : Type ℓ} where
  is_in-names_of : (r : Registry V) (name : Text) → is_in name (names_of r) ≡ has r name
  unfolding has get
  is_in-names_of [] name = refl
  is_in-names_of ((n, v) ∷ r) name =
      ground (arith, is_in-names_of r name, text_eq_iff n name, text_eq_iff name n)

  is_in-file :
      (z name : Text) (v : V) (r : Registry V)
      → is_in z (names_of (file name v r)) ≡ (text_eq z name || is_in z (names_of r))
  unfolding file
  is_in-file z name v [] = refl
  is_in-file z name v ((n, w) ∷ r) = ground (arith, is_in-file z name v r, text_eq_iff n name)

  is_in-unfile :
      (z name : Text) (r : Registry V)
      → is_in z (names_of r) ≡ false
      → is_in z (names_of (unfile name r)) ≡ false
  unfolding unfile
  is_in-unfile z name [] h = refl
  is_in-unfile z name ((n, w) ∷ r) h = ground (arith, is_in-unfile z name r)

  file-Distinct :
      (name : Text) (v : V) (r : Registry V)
      → Distinct (names_of r)
      → Distinct (names_of (file name v r))
  unfolding file
  file-Distinct name v [] h = (refl, tt)
  file-Distinct name v ((n, w) ∷ r) (new, h) =
      if-case (λ (r' : Registry V). Distinct (names_of r')) (text_eq n name) _ _ (λ _. (new, h))
        (λ apart. (is_in-file n name v r ∙ (ground arith), file-Distinct name v r h))

  unfile-Distinct :
      (name : Text) (r : Registry V) → Distinct (names_of r) → Distinct (names_of (unfile name r))
  unfolding unfile
  unfile-Distinct name [] h = tt
  unfile-Distinct name ((n, w) ∷ r) (new, h) =
      if-case (λ (r' : Registry V). Distinct (names_of r')) (text_eq n name) _ _
        (λ _. unfile-Distinct name r h) (λ _. (is_in-unfile n name r new, unfile-Distinct name r h))

  length-names_of : (r : Registry V) → length (names_of r) ≡ length r
  length-names_of [] = refl
  length-names_of (e ∷ r) = ap suc (length-names_of r)

  module _ {κ} {O : Type κ} (go : GoLib) (build : Text → List O → Fallible V)
      (with_name : Text → O) where
    built-Distinct :
        (name : Text) (b : Fallible V) (r : Registry V)
        → Distinct (names_of r)
        → Distinct (names_of (register_built go build with_name name b r).1)
    built-Distinct name (fail e) r h = h
    built-Distinct name (ok v) r h = file-Distinct name v r h

    call-Distinct :
        (c : Call V O) (r : Registry V)
        → Distinct (names_of r)
        → Distinct (names_of (call go build with_name c r).1)
    unfolding call register put unregister
    call-Distinct (register_call name src opts) r h = built-Distinct name (build src _) r h
    call-Distinct (put_call name none) r h = h
    call-Distinct (put_call name (some v)) r h = file-Distinct name v r h
    call-Distinct (unregister_call name) r h =
        if-case (λ (p : Bool × Registry V). Distinct (names_of p.1)) (has r name) _ _
          (λ _. unfile-Distinct name r h) (λ _. h)

    run-Distinct :
        (cs : List (Call V O)) (r : Registry V)
        → Distinct (names_of r)
        → Distinct (names_of (run go build with_name cs r).1)
    unfolding run
    run-Distinct [] r h = h
    run-Distinct (c ∷ cs) r h =
        run-Distinct cs (call go build with_name c r).1 (call-Distinct c r h)

    -- After any sequence of calls on a new registry, List is in strictly ascending order, it holds
    -- a name exactly when Has finds it, and it has as many names as Len counts.
    pub list_names-run :
        (cs : List (Call V O)) (name : Text)
        → let r = (run go build with_name cs []).1 in
          Ascending (list_names r)
          × (is_in name (list_names r) ≡ has r name)
          × (length (list_names r) ≡ len r)
    unfolding list_names len
    list_names-run cs name =
        let r = (run go build with_name cs []).1 in
        (
          sort_names-Ascending (names_of r) (run-Distinct cs [] tt),
          is_in-sort_names name (names_of r) ∙ is_in-names_of r name,
          length-sort_names (names_of r) ∙ length-names_of r,
        )
