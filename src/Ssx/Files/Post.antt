-- ===== src/Ssx/Files/Post.antt =====
-- What is known behind the lines that were read from a state on.
use libtabula.Prelude.{
  ◌≡◌, refl, sym, ◌∙◌, Bool, true, false, List, [], ◌∷◌, ◌++◌, All, All-append, false≢true, subst,
}
use libtabula.Ssx.{
  Line, accessor_style, exception_on_schema_mismatch, header_extension, implementation_extension,
  field, table,
}
use libtabula.Ssx.Lines.Names.{IsAccepted}
use libtabula.Ssx.Files.{State, Parsed, hoist}
use libtabula.Ssx.Files.Readable.{InOrder}
use libtabula.Ssx.Files.OneLine.{seen_after, seen_last}

-- The lines that are read from a state on, and the state behind them: a table that the flag tells of
-- is among the lines, or the state told of it before.
abbrev pub Post : Bool → List Line × State → Type 0
Post seen r =
    All IsAccepted r.0
    × (InOrder seen r.0 × (r.1.last_tld_was_table ≡ true → seen_last seen r.0 ≡ true))

abbrev pub PostParsed : Bool → Parsed × State → Type 0
PostParsed seen r = Post seen (hoist r.0 [], r.1)

InOrder-more : (seen : Bool) (ls : List Line) → InOrder false ls → InOrder seen ls
InOrder-more seen [] h = tt
InOrder-more seen (field f ∷ ls) h = absurd (false≢true h.0)
InOrder-more seen (table t ∷ ls) h = h
InOrder-more seen (accessor_style v s ∷ ls) h = h
InOrder-more seen (exception_on_schema_mismatch v b ∷ ls) h = h
InOrder-more seen (header_extension v ∷ ls) h = h
InOrder-more seen (implementation_extension v ∷ ls) h = h

seen_last_more :
    (seen : Bool) (ls : List Line) → seen_last false ls ≡ true → seen_last seen ls ≡ true
seen_last_more seen [] h = absurd (false≢true h)
seen_last_more seen (field f ∷ ls) h = seen_last_more seen ls h
seen_last_more seen (table t ∷ ls) h = h
seen_last_more seen (accessor_style v s ∷ ls) h = h
seen_last_more seen (exception_on_schema_mismatch v b ∷ ls) h = h
seen_last_more seen (header_extension v ∷ ls) h = h
seen_last_more seen (implementation_extension v ∷ ls) h = h

-- From a flag that is not more than what was seen.
pub Post-le :
    (flag seen : Bool) (r : List Line × State)
    → (flag ≡ true → seen ≡ true)
    → Post flag r
    → Post seen r
Post-le true seen r h p = subst (λ b. Post b r) (sym (h refl)) p
Post-le false seen r h p =
    (p.0, (InOrder-more seen r.0 p.1.0, λ e. seen_last_more seen r.0 (p.1.1 e)))

seen_last-append :
    (seen : Bool) (ls ms : List Line) → seen_last seen (ls ++ ms) ≡ seen_last (seen_last seen ls) ms
seen_last-append seen [] ms = refl
seen_last-append seen (l ∷ ls) ms = seen_last-append (seen_after l seen) ls ms

InOrder-append :
    (seen : Bool) (ls ms : List Line)
    → InOrder seen ls
    → InOrder (seen_last seen ls) ms
    → InOrder seen (ls ++ ms)
InOrder-append seen [] ms h k = k
InOrder-append seen (field f ∷ ls) ms h k = (h.0, InOrder-append seen ls ms h.1 k)
InOrder-append seen (table t ∷ ls) ms h k = InOrder-append true ls ms h k
InOrder-append seen (accessor_style v s ∷ ls) ms h k = InOrder-append false ls ms h k
InOrder-append seen (exception_on_schema_mismatch v b ∷ ls) ms h k = InOrder-append false ls ms h k
InOrder-append seen (header_extension v ∷ ls) ms h k = InOrder-append false ls ms h k
InOrder-append seen (implementation_extension v ∷ ls) ms h k = InOrder-append false ls ms h k

-- Lines that are read behind others.
pub Post-append :
    (seen : Bool) (ls ms : List Line) (st₁ st₂ : State)
    → Post seen (ls, st₁)
    → Post st₁.last_tld_was_table (ms, st₂)
    → Post seen (ls ++ ms, st₂)
Post-append seen ls ms st₁ st₂ p q =
    let r = Post-le st₁.last_tld_was_table (seen_last seen ls) (ms, st₂) p.1.1 q in
    (
      All-append IsAccepted ls ms p.0 r.0,
      (InOrder-append seen ls ms p.1.0 r.1.0, λ e. seen_last-append seen ls ms ∙ r.1.1 e),
    )
