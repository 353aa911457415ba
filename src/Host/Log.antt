-- ===== src/Host/Log.antt =====
-- The log of what a step changes, and the contents that it goes through.
use claudepod.Prelude.{
  ◌≡◌, refl, sym, ap, ◌∙◌, Option, List, [], ◌∷◌, ◌++◌, append-nil, append_assoc, Bytes,
}
use claudepod.Host.{Contents, put_at, Host}

-- The paths that change in one step, with what they have then.
abbrev pub Change : Type 0
Change = List (Bytes × Option Bytes)

abbrev pub apply : Change → Contents → Contents
apply [] f = f
apply ((path, value) ∷ c) f = apply c (put_at path value f)

abbrev pub after : List Change → Contents → Contents
after [] f = f
after (c ∷ cs) f = after cs (apply c f)

-- The contents before each of the steps, the newest first.
abbrev pub before_each : List Change → Contents → List Contents
before_each [] f = []
before_each (c ∷ cs) f = before_each cs (apply c f) ++ (f ∷ [])

pub after-append :
    (cs₁ cs₂ : List Change) (f : Contents) → after (cs₁ ++ cs₂) f ≡ after cs₂ (after cs₁ f)
after-append [] cs₂ f = refl
after-append (c ∷ cs₁) cs₂ f = after-append cs₁ cs₂ (apply c f)

pub before_each-append :
    (cs₁ cs₂ : List Change) (f : Contents)
    → before_each (cs₁ ++ cs₂) f ≡ before_each cs₂ (after cs₁ f) ++ before_each cs₁ f
before_each-append [] cs₂ f = sym (append-nil _)
before_each-append (c ∷ cs₁) cs₂ f =
    ap (λ (t : List Contents). t ++ (f ∷ [])) (before_each-append cs₁ cs₂ (apply c f))
    ∙ append_assoc (before_each cs₂ (after cs₁ (apply c f))) (before_each cs₁ (apply c f)) (f ∷ [])

pub record Changed (h : Host) (log : List Change) (h' : Host) : Type 0 where
  pub files : h'.files ≡ after log h.files
  pub past : h'.past ≡ before_each log h.files ++ h.past

pub Changed-follows :
    {s t u : Host} {a b : List Change} → Changed s a t → Changed t b u → Changed s (a ++ b) u
Changed-follows {s} {t} {u} {a} {b} p q = record {
  files = q.files ∙ ap (after b) p.files ∙ sym (after-append a b s.files);
  past =
      q.past
      ∙ (λ i. before_each b (p.files i) ++ p.past i)
      ∙ sym (append_assoc (before_each b (after a s.files)) (before_each a s.files) s.past)
      ∙ ap (λ (t : List Contents). t ++ s.past) (sym (before_each-append a b s.files));
}

-- Nothing has changed where no step was made.
pub Changed-nothing :
    {h h' : Host} {log : List Change} → Changed h log h' → log ≡ [] → h'.files ≡ h.files
Changed-nothing {h} c q = c.files ∙ ap (λ (l : List Change). after l h.files) q
