-- ===== src/Start/Launch/Mounts.antt =====
-- The project directory is in the guest where the launcher says that it is.
use claudepod.Prelude.{
  ℕ, ◌≡◌, refl, sym, ap, ◌∙◌, ◌⊎◌, inl, inr, Option, none, some, Bool, true, false, List, [], ◌∷◌,
  ◌++◌, append-nil, Bytes, ascii, length, ◌==◌, suc_==_zero, All, Bool-cases,
}
use claudepod.Outcome.{ok}
use claudepod.Outcome.Laws.{err_ok, ok_injective}
use claudepod.Paths.{
  components, is_rooted, ends_open, contains_byte, strip_parts, join_parts, path_join, file_name,
}
use claudepod.Paths.Split.{IsPiece}
use claudepod.Paths.Names.{IsName, IsName-is_rooted}
use claudepod.Paths.Below.{IsKept, components-below, strip_parts-append, strip_parts-IsKept}
use claudepod.Start.Project.{
  in_some_root, below_src, guest_home, guest_src, below_guest_src, shared_project, placed,
  guest_project_path,
}
use claudepod.Start.Binds.{Args, Volume, src_volumes, layer_volumes, base_volumes}

abbrev pub In : Volume → List Volume → Type 0
In v [] = ⊥
In v (w ∷ ws) = (w ≡ v) ⊎ In v ws

In-append_right : (v : Volume) (xs ys : List Volume) → In v ys → In v (xs ++ ys)
In-append_right v [] ys h = h
In-append_right v (x ∷ xs) ys h = inr (In-append_right v xs ys h)

In-append_left : (v : Volume) (xs ys : List Volume) → In v xs → In v (xs ++ ys)
In-append_left v [] ys h = absurd h
In-append_left v (x ∷ xs) ys (inl e) = inl e
In-append_left v (x ∷ xs) ys (inr h) = inr (In-append_left v xs ys h)

-- The host's path is below the volume's directory as the guest's path is below the place where the
-- volume stands.
pub record Shows (v : Volume) (guest project : Bytes) : Type 0 where
  pub rel : List Bytes
  pub inside : components guest ≡ components v.guest ++ rel
  pub outside : components project ≡ components v.host ++ rel

-- The branches of the guest's path.
pub data Placed (project : Bytes) (src : Option Bytes) (user : Bytes) (g : Bytes × Bool)
    : Type 0 where
  below :
      (s : Bytes) (rel : List Bytes)
      → src ≡ some s
      → strip_parts (components s) (components project) ≡ some rel
      → g ≡ (below_guest_src user rel, false)
      → Placed project src user g
  shared : g.1 ≡ true → Placed project src user g

below_src-some :
    (project : Bytes) (src : Option Bytes) (rel : List Bytes)
    → below_src project src ≡ some rel
    → (s : Bytes) × (src ≡ some s) × (strip_parts (components s) (components project) ≡ some rel)
unfolding below_src
below_src-some project none rel h = absurd (cc)
below_src-some project (some s) rel h = (s, refl, h)

shared_project-shared : (o : Option Bytes) (g : Bytes × Bool) → shared_project o ≡ ok g → g.1 ≡ true
unfolding shared_project
shared_project-shared none g h = absurd (err_ok h)
shared_project-shared (some name) g h = ap (λ (p : Bytes × Bool). p.1) (sym (ok_injective h))

placed-Placed :
    (project : Bytes) (src : Option Bytes) (roots : List Bytes) (user : Bytes) (g : Bytes × Bool)
    (o : Option (List Bytes))
    → below_src project src ≡ o
    → placed project roots user o ≡ ok g
    → Placed project src user g
unfolding placed
placed-Placed project src roots user g (some rel) q h =
    let (s, e, k) = below_src-some project src rel q in below s rel e k (sym (ok_injective h))
placed-Placed project src roots user g none q h = elim (Bool-cases (in_some_root project roots)) [
  | inl e ↦ shared (ap (λ (p : Bytes × Bool). p.1) (sym (ok_injective (rw e at h))))
  | inr e ↦ shared (shared_project-shared (file_name project) g (rw e at h))
]

ends_open-append : (d : Bytes) (b : ℕ) (bs : Bytes) → ends_open (d ++ (b ∷ bs)) ≡ ends_open (b ∷ bs)
ends_open-append [] b bs = refl
ends_open-append (x ∷ []) b bs = refl
ends_open-append (x ∷ (y ∷ d)) b bs = ends_open-append (y ∷ d) b bs

-- A name does not end with a slash.
ends_open_name :
    (c : ℕ) (name : Bytes)
    → IsPiece b'/' name
    → (length name == 0) ≡ false
    → ends_open (c ∷ name) ≡ true
unfolding contains_byte
ends_open_name c [] h k = cc
ends_open_name c (b ∷ []) h k = elim (Bool-cases (b == b'/')) [ inl e ↦ cc | inr e ↦ rw e refl ]
ends_open_name c (b ∷ (d ∷ ds)) h k = elim (Bool-cases (b == b'/')) [
  | inl e ↦ cc
  | inr e ↦ ends_open_name b (d ∷ ds) (rw e at h) (suc_==_zero (length ds))
]

guest_src-path_join :
    (user : Bytes) → IsName user → path_join (guest_home user) (ascii "src") ≡ guest_src user
unfolding path_join guest_home guest_src ascii
guest_src-path_join user n = rw (ends_open_name b'/' user n.no_slash n.not_empty) refl

guest_src-is_rooted : (user : Bytes) → is_rooted (guest_src user) ≡ true
unfolding guest_src guest_home ascii
guest_src-is_rooted user = refl

guest_src-ends_open : (user : Bytes) → ends_open (guest_src user) ≡ true
unfolding guest_src ascii
guest_src-ends_open user = ends_open-append (guest_home user) b'/' (ascii "src")

is_rooted-join_parts :
    (p : Bytes) (ps : List Bytes) → IsKept p → is_rooted (join_parts (p ∷ ps)) ≡ false
unfolding join_parts contains_byte
is_rooted-join_parts [] ps k = absurd (empty_kept k.kept)
  where
    empty_kept : true ≡ false → ⊥
    empty_kept h = cc
is_rooted-join_parts (b ∷ p) [] k = IsName-is_rooted (b ∷ p) k.no_slash
is_rooted-join_parts (b ∷ p) (q ∷ qs) k = IsName-is_rooted (b ∷ p) k.no_slash

below_guest_src-components :
    (user : Bytes) (rel : List Bytes)
    → All IsKept rel
    → components (below_guest_src user rel) ≡ components (guest_src user) ++ rel
unfolding path_join
below_guest_src-components user [] h = sym (append-nil _)
below_guest_src-components user (p ∷ ps) h =
    rw (is_rooted-join_parts p ps h.0, guest_src-ends_open user)
      (components-below (guest_src user) p ps (guest_src-is_rooted user) h)

module _ (args : Args) (socket home_dir user : Bytes) (src : Option Bytes) (parents : List Bytes)
    (project : Bytes) where
  abbrev volumes : Bytes × Bool → List Volume
  volumes = base_volumes args socket home_dir (guest_home user) src parents project

  In-src :
      (s : Bytes) (g : Bytes × Bool)
      → src ≡ some s
      → In
          (record { host = s; guest = path_join (guest_home user) (ascii "src"); options = none })
          (volumes g)
  unfolding base_volumes
  In-src s g e = inr (inr (inr (rw e (inl refl))))

  In-project :
      (g : Bytes × Bool)
      → g.1 ≡ true
      → In (record { host = project; guest = g.0; options = none }) (volumes g)
  unfolding base_volumes
  In-project g e = inr (
      inr (
        inr (
          In-append_right _ (src_volumes (guest_home user) src) _
            (In-append_right _ (layer_volumes 0 parents) _ (rw e (inl refl))))))

  shows :
      (g : Bytes × Bool)
      → IsName user
      → is_rooted project ≡ true
      → ((s : Bytes) → src ≡ some s → is_rooted s ≡ true)
      → Placed project src user g
      → (v : Volume) × In v (volumes g) × Shows v g.0 project
  shows g n r k (shared e) = (
    record { host = project; guest = g.0; options = none },
    In-project g e,
    record { rel = []; inside = sym (append-nil _); outside = sym (append-nil _) },
  )
  shows g n r k (below s rel e q p) =
      let kept = strip_parts-IsKept s project rel (k s e) r q in
      (
        record { host = s; guest = path_join (guest_home user) (ascii "src"); options = none },
        In-src s g e,
        record {
          rel = rel;
          inside =
              ap (λ (x : Bytes × Bool). components x.0) p
              ∙ below_guest_src-components user rel kept
              ∙ ap (λ (t : Bytes). components t ++ rel) (sym (guest_src-path_join user n));
          outside = strip_parts-append (components s) (components project) rel q;
        },
      )

  -- For an absolute project directory and an absolute source root, if there is one, and a user whose
  -- name is one path component: where the launcher finds a guest path, one of its volumes shows the
  -- project directory exactly there, that is, the guest path has below the volume's place the same
  -- components that the project directory has below the volume's source.
  pub guest_project_path-Shows :
      (roots : List Bytes) (g : Bytes × Bool)
      → IsName user
      → is_rooted project ≡ true
      → ((s : Bytes) → src ≡ some s → is_rooted s ≡ true)
      → guest_project_path project src roots user ≡ ok g
      → (v : Volume) × In v
          (base_volumes args socket home_dir (guest_home user) src parents project g)
        × Shows v g.0 project
  unfolding guest_project_path
  guest_project_path-Shows roots g n r k h =
      shows g n r k (placed-Placed project src roots user g (below_src project src) refl h)
