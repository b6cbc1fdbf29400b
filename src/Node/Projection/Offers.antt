-- ===== src/Node/Projection/Offers.antt =====
-- crates/node/src/projection.rs: which points the projection at a path offers.
use rsntr.Base.{
  ◌≡◌, refl, ap, sym, ◌∙◌, subst, ◌↔◌, ◌⊎◌, inl, inr, Bool, true, false, not, ◌&&◌, Option, some,
  List, [], ◌∷◌, ◌++◌, In, here, there, Str, ◌=s◌, trim_start, trim_end, Bool-cases, Option-cases,
  some_inj,
}
use rsntr.Authenticator.Db.{PolicyRow}
use rsntr.Authenticator.Human.{is_nil}
use rsntr.Node.Fields.{JsonValue}
use rsntr.Node.Projection.{
  PointRow, Point, Projection, ProjectionOutcome, built, unknown_path, before, insert_ordered,
  rows_at, row_to_point, projection_changed_point, shown, offered, collect_offers, with_changed,
  no_rows, build_projection,
}

module _ {ℓ} {A : Type ℓ} where
  In-append_left : (x : A) (xs ys : List A) → In x xs → In x (xs ++ ys)
  In-append_left x [] ys i = elim i [ ]
  In-append_left x (y ∷ xs) ys (here e) = here e
  In-append_left x (y ∷ xs) ys (there i) = there (In-append_left x xs ys i)

  In-append_right : (x : A) (xs ys : List A) → In x ys → In x (xs ++ ys)
  In-append_right x [] ys i = i
  In-append_right x (y ∷ xs) ys i = there (In-append_right x xs ys i)

  append-In : (x : A) (xs ys : List A) → In x (xs ++ ys) → In x xs ⊎ In x ys
  append-In x [] ys i = inr i
  append-In x (y ∷ xs) ys (here e) = inl (here e)
  append-In x (y ∷ xs) ys (there i) = elim (append-In x xs ys i) [
    | inl j ↦ inl (there j)
    | inr j ↦ inr j
  ]

  behind_head : {x y : A} {xs ys : List A} → (In x xs → In x ys) → In x (y ∷ xs) → In x (y ∷ ys)
  behind_head f (here e) = here e
  behind_head f (there i) = there (f i)

  heads_swap : {x y z : A} {xs : List A} → In x (y ∷ z ∷ xs) → In x (z ∷ y ∷ xs)
  heads_swap (here e) = there (here e)
  heads_swap (there (here e)) = here e
  heads_swap (there (there i)) = there (there i)

insert_ordered-In :
    (x r : PointRow) (rows : List PointRow) → In x (r ∷ rows) → In x (insert_ordered r rows)
unfolding insert_ordered
insert_ordered-In x r [] i = i
insert_ordered-In x r (q ∷ rows) i = elim (Bool-cases (before q r)) [
  | inr after ↦ rw after i
  | inl first ↦ rw first (behind_head (insert_ordered-In x r rows) (heads_swap i))
]

In-insert_ordered :
    (x r : PointRow) (rows : List PointRow) → In x (insert_ordered r rows) → In x (r ∷ rows)
unfolding insert_ordered
In-insert_ordered x r [] = λ i. i
In-insert_ordered x r (q ∷ rows) = elim (Bool-cases (before q r)) [
  | inr after ↦ rw after (λ i. i)
  | inl first ↦ rw first (λ i. heads_swap (behind_head (In-insert_ordered x r rows) i))
]

-- the rows at a path
module _ (path : Str) where
  Placed : PointRow → List PointRow → Type 0
  Placed x table = In x table × ((x.path =s path) ≡ true)

  Placed-cons :
      (x r : PointRow) (rows table : List PointRow)
      → (r.path =s path) ≡ true
      → (In x rows → Placed x table)
      → In x (r ∷ rows)
      → Placed x (r ∷ table)
  unfolding Placed
  Placed-cons x r rows table h f (here e) = (here e, ap (λ y. y.path =s path) e ∙ h)
  Placed-cons x r rows table h f (there i) = let (j, e) = f i in (there j, e)

  In-rows_at : (x : PointRow) (table : List PointRow) → In x (rows_at path table) → Placed x table
  unfolding rows_at Placed
  In-rows_at x [] = λ i. elim i [ ]
  In-rows_at x (r ∷ table) = elim (Bool-cases (r.path =s path)) [
    | inr elsewhere ↦ rw elsewhere (λ i. let (j, e) = In-rows_at x table i in (there j, e))
    | inl at_path ↦ rw at_path (λ i.
        Placed-cons x r (rows_at path table) table at_path (In-rows_at x table)
          (In-insert_ordered x r (rows_at path table) i))
  ]

  rows_at-In : (x : PointRow) (table : List PointRow) → Placed x table → In x (rows_at path table)
  unfolding rows_at Placed
  rows_at-In x [] (i, h) = elim i [ ]
  rows_at-In x (r ∷ table) (here e, h) =
      let at_path : (r.path =s path) ≡ true = ap (λ y. y.path =s path) (sym e) ∙ h in
      rw at_path (insert_ordered-In x r (rows_at path table) (here e))
  rows_at-In x (r ∷ table) (there i, h) = elim (Bool-cases (r.path =s path)) [
    | inr elsewhere ↦ rw elsewhere (rows_at-In x table (i, h))
    | inl at_path ↦
        rw at_path (insert_ordered-In x r (rows_at path table) (there (rows_at-In x table (i, h))))
  ]

module _ {Real : Type 0} (d : Str → Option (JsonValue Real)) (policy : Option (List PolicyRow))
    (peer : Str) (unfiltered : Bool) where
  -- A row of the list that the caller may see makes the point.
  pub Shows : List PointRow → Point Real → Type 0
  Shows rows p =
      (r : PointRow) × In r rows
      × (shown policy peer unfiltered r ≡ some true)
      × (p ≡ row_to_point d r)

  Shows-there :
      (r : PointRow) (rows : List PointRow) (p : Point Real) → Shows rows p → Shows (r ∷ rows) p
  unfolding Shows
  Shows-there r rows p (q, i, s, e) = (q, there i, s, e)

  In-offered :
      (b : Bool) (r : PointRow) (rows : List PointRow) (rest : List (Point Real)) (p : Point Real)
      → shown policy peer unfiltered r ≡ some b
      → (In p rest → Shows rows p)
      → In p (offered d b r rest)
      → Shows (r ∷ rows) p
  unfolding Shows offered
  In-offered true r rows rest p s f (here e) = (r, here refl, s, e)
  In-offered true r rows rest p s f (there i) = Shows-there r rows p (f i)
  In-offered false r rows rest p s f i = Shows-there r rows p (f i)

  offered-In :
      (b : Bool) (r : PointRow) (rows : List PointRow) (rest : List (Point Real)) (p : Point Real)
      → shown policy peer unfiltered r ≡ some b
      → (Shows rows p → In p rest)
      → Shows (r ∷ rows) p
      → In p (offered d b r rest)
  unfolding Shows offered
  offered-In true r rows rest p s f (q, here i, t, e) = here (e ∙ ap (row_to_point d) i)
  offered-In true r rows rest p s f (q, there i, t, e) = there (f (q, i, t, e))
  offered-In false r rows rest p s f (q, there i, t, e) = f (q, i, t, e)
  offered-In false r rows rest p s f (q, here i, t, e) =
      let u : shown policy peer unfiltered q ≡ some false =
        ap (shown policy peer unfiltered) i ∙ s in
      absurd (let same : some true ≡ some false = sym t ∙ u in cc)

  collect_offers_iff :
      (rows : List PointRow) (offers : List (Point Real)) (p : Point Real)
      → collect_offers d policy peer unfiltered rows ≡ some offers
      → In p offers ↔ Shows rows p
  unfolding collect_offers Shows
  collect_offers_iff [] offers p = λ e.
      subst (λ l. In p l ↔ Shows [] p) (some_inj e) (λ i. elim i [ ], λ (q, i, t, s). elim i [ ])
  collect_offers_iff (r ∷ rows) offers p = elim (Option-cases (shown policy peer unfiltered r)) [
    | inl failed ↦ rw (failed, collect_offers) (λ e. absurd (cc))
    | inr (b, s) ↦ elim (Option-cases (collect_offers d policy peer unfiltered rows)) [
      | inl failed ↦ rw (s, collect_offers) (rw failed (λ e. absurd (cc)))
      | inr (rest, c) ↦
          rw (s, collect_offers)
            (rw c (λ e.
              subst (λ l. In p l ↔ Shows (r ∷ rows) p) (some_inj e)
                (let both = collect_offers_iff rows rest p c in
                  (In-offered b r rows rest p s both.0, offered-In b r rows rest p s both.1))))
    ]
  ]

  -- A row at the path makes the point, or it is the point that the root has besides.
  abbrev pub Offered : Str → List PointRow → Point Real → Type 0
  Offered path table p =
      ((r : PointRow) × In r table
        × ((r.path =s path) ≡ true)
        × (shown policy peer unfiltered r ≡ some true)
        × (p ≡ row_to_point d r))
      ⊎ ((path ≡ []) × (p ≡ projection_changed_point d))

  Shows-rows_at :
      (path : Str) (table : List PointRow) (p : Point Real)
      → Shows (rows_at path table) p
      → Offered path table p
  unfolding Shows Placed
  Shows-rows_at path table p (r, i, s, e) =
      let (j, h) = In-rows_at path r table i in inl (r, j, h, s, e)

  rows_at-Shows :
      (path : Str) (table : List PointRow) (p : Point Real)
      → ((r : PointRow) × In r table
          × ((r.path =s path) ≡ true)
          × (shown policy peer unfiltered r ≡ some true)
          × (p ≡ row_to_point d r))
      → Shows (rows_at path table) p
  unfolding Shows Placed
  rows_at-Shows path table p (r, j, h, s, e) = (r, rows_at-In path r table (j, h), s, e)

  with_changed_iff :
      (path : Str) (table : List PointRow) (offers : List (Point Real)) (p : Point Real)
      → (In p offers ↔ Shows (rows_at path table) p)
      → In p (with_changed d path offers) ↔ Offered path table p
  with_changed_iff [] table offers p both = (
    λ i. elim (append-In p offers (projection_changed_point d ∷ []) i) [
      | inl j ↦ Shows-rows_at [] table p (both.0 j)
      | inr (here e) ↦ inr (refl, e)
      | inr (there j) ↦ elim j [ ]
    ],
    elim [
      | inl row ↦
          In-append_left p offers (projection_changed_point d ∷ [])
            (both.1 (rows_at-Shows [] table p row))
      | inr (root, e) ↦ In-append_right p offers (projection_changed_point d ∷ []) (here e)
    ],
  )
  with_changed_iff (c ∷ cs) table offers p both = (
    λ i. Shows-rows_at (c ∷ cs) table p (both.0 i),
    elim [ inl row ↦ both.1 (rows_at-Shows (c ∷ cs) table p row) | inr (root, e) ↦ absurd (cc) ],
  )

  -- A projection that is built at a path offers exactly the points of the rows at the trimmed path that
  -- the caller may see (or of all, unfiltered), and at the root also the point that tells of changes.
  pub build_projection_offers :
      (table : List PointRow) (id path : Str) (proj : Projection Real) (p : Point Real)
      → build_projection d (some table) policy peer id path unfiltered ≡ some (built proj)
      → In p proj.offers ↔ Offered (trim_end (trim_start path)) table p
  unfolding build_projection
  build_projection_offers table id path proj p =
      let at_path = trim_end (trim_start path) in
      elim (Bool-cases (no_rows (rows_at at_path table) && not (is_nil at_path))) [
        | inl nowhere ↦ rw nowhere (λ e. absurd (cc))
        | inr found ↦
            elim (Option-cases (collect_offers d policy peer unfiltered (rows_at at_path table))) [
              | inl failed ↦ rw found (rw failed (λ e. absurd (cc)))
              | inr (offers, c) ↦ rw found (
                  rw c (λ e.
                    subst (λ l. In p l ↔ Offered at_path table p) (ap offers_of (some_inj e))
                      (with_changed_iff at_path table offers p
                        (collect_offers_iff (rows_at at_path table) offers p c))))
            ]
      ]
    where
      offers_of : ProjectionOutcome Real → List (Point Real)
      offers_of unknown_path = []
      offers_of (built q) = q.offers
