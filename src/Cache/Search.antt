-- ===== src/Cache/Search.antt =====
-- The search loop of `cache_access` and the queue, as operations on the lines of one set.
use computer_architecture.Base.{
  ℕ, ◌+◌, ◌≡◌, ◌≢◌, refl, sym, ◌∙◌, subst, true, false, none, some, List, [], ◌∷◌, ◌++◌, length,
  All, All-map, All-append, arith, ◌==◌, if◌then◌else◌, Bool-cases, inl, inr,
}
use computer_architecture.Base.Word.{u32}
use computer_architecture.Cache.Line.{Line, CacheWordFunc}
use computer_architecture.Cache.Access.{Search, matches, count_ref, scan}
use computer_architecture.Cache.Coherent.{find, Distinct}

-- The matching line changed for another.
unfoldable pub replace : ℕ → Line → List Line → List Line
replace tag new [] = []
replace tag new (line ∷ lines) =
    if matches tag line then new ∷ lines else line ∷ replace tag new lines

pub find_absent :
    (tag : ℕ) (lines : List Line) → All (λ line. line.tag ≢ tag) lines → find tag lines ≡ none
unfolding find
find_absent tag [] h = refl
find_absent tag (line ∷ lines) h = ground (arith, find_absent tag lines h.1)

pub find-tag : (tag : ℕ) (lines : List Line) (l : Line) → find tag lines ≡ some l → l.tag ≡ tag
unfolding find
find-tag tag [] l h = cc
find-tag tag (line ∷ lines) l h = ground (arith, find-tag tag lines l)

pub find-All {ℓ} :
    (P : Line → Type ℓ) (tag : ℕ) (lines : List Line) (l : Line)
    → All P lines
    → find tag lines ≡ some l
    → P l
unfolding find
find-All P tag [] l p h = absurd (cc)
find-All P tag (line ∷ lines) l p h = elim (Bool-cases (matches tag line)) [
  | inl hit ↦ subst P (ground arith) p.0
  | inr miss ↦ find-All P tag lines l p.1 (rw miss at h)
]

module _ (func : CacheWordFunc) (tag offset : ℕ) where
  pub scan_miss :
      (lines : List Line) (st : Search)
      → find tag lines ≡ none
      → scan func tag offset lines st ≡ (lines, st)
  unfolding scan find
  scan_miss [] st h = refl
  scan_miss (line ∷ lines) st h = ground (arith, scan_miss lines st)

  -- The loop goes on after a match, and finds no other.
  pub scan_hit :
      (lines : List Line) (st : Search) (l : Line)
      → Distinct lines
      → find tag lines ≡ some l
      → scan func tag offset lines st ≡ (
        replace tag (func (count_ref l) st.word offset).0 lines,
        record {
          missed = false;
          hits = u32 (st.hits + 1);
          word = (func (count_ref l) st.word offset).1;
        },
      )
  unfolding scan find replace
  scan_hit [] st l d h = absurd (cc)
  scan_hit (line ∷ lines) st l d h = elim (Bool-cases (matches tag line)) [
    | inl hit ↦
        let none_left : find tag lines ≡ none =
          find_absent tag lines (All-map lines (λ x p e. p (ground arith)) d.0) in
        ground (
          arith,
          scan_miss lines
              (record {
                missed = false;
                hits = u32 (st.hits + 1);
                word = (func (count_ref line) st.word offset).1;
              })
              none_left,
        )
    | inr miss ↦ ground (arith, scan_hit lines st l d.1)
  ]

module _ (tag : ℕ) (new : Line) (same : new.tag ≡ tag) where
  pub find-replace :
      (lines : List Line) (l : Line) (q : ℕ)
      → new.valid ≡ true
      → find tag lines ≡ some l
      → find q (replace tag new lines) ≡ (if q == tag then some new else find q lines)
  unfolding find replace
  find-replace [] l q v h = absurd (cc)
  find-replace (line ∷ lines) l q v h = ground (arith, find-replace lines l q v)

  pub length-replace : (lines : List Line) → length (replace tag new lines) ≡ length lines
  unfolding replace
  length-replace [] = refl
  length-replace (line ∷ lines) = ground (arith, length-replace lines)

  pub replace-All {ℓ} :
      (P : Line → Type ℓ) (lines : List Line) → All P lines → P new → All P (replace tag new lines)
  unfolding replace
  replace-All P [] h n = tt
  replace-All P (line ∷ lines) h n = elim (Bool-cases (matches tag line)) [
    | inl hit ↦ rw hit (n, h.1)
    | inr miss ↦ rw miss (h.0, replace-All P lines h.1 n)
  ]

  pub replace-Distinct :
      (lines : List Line) (l : Line)
      → Distinct lines
      → find tag lines ≡ some l
      → Distinct (replace tag new lines)
  unfolding replace find
  replace-Distinct [] l d h = tt
  replace-Distinct (line ∷ lines) l d h = elim (Bool-cases (matches tag line)) [
    | inl hit ↦ rw hit (All-map lines (λ x p e. p (ground arith)) d.0, d.1)
    | inr miss ↦
        let h' : find tag lines ≡ some l = rw miss at h in
        let other = find-All (λ x. x.tag ≢ line.tag) tag lines l d.0 h' in
        rw miss (
          replace-All (λ x. x.tag ≢ line.tag) lines d.0
              (λ e. other (find-tag tag lines l h' ∙ sym same ∙ e)),
          replace-Distinct lines l d.1 h',
        )
  ]

pub find-append :
    (q : ℕ) (lines : List Line) (new : Line)
    → find q lines ≡ none
    → find q (lines ++ new ∷ []) ≡ (if matches q new then some new else none)
unfolding find
find-append q [] new h = refl
find-append q (line ∷ lines) new h = ground (arith, find-append q lines new)

pub find-append_some :
    (q : ℕ) (lines : List Line) (new l : Line)
    → find q lines ≡ some l
    → find q (lines ++ new ∷ []) ≡ some l
unfolding find
find-append_some q [] new l h = cc
find-append_some q (line ∷ lines) new l h = ground (arith, find-append_some q lines new l)

pub append-Distinct :
    (lines : List Line) (new : Line)
    → Distinct lines
    → All (λ line. line.tag ≢ new.tag) lines
    → Distinct (lines ++ new ∷ [])
append-Distinct [] new d h = (tt, tt)
append-Distinct (line ∷ lines) new d h = (
  All-append (λ other. other.tag ≢ line.tag) lines (new ∷ []) d.0 ((λ e. h.0 (sym e)), tt),
  append-Distinct lines new d.1 h.1,
)

-- In a set whose lines are all in use, a search fails only if no line has the tag.
pub find-eq-none :
    (tag : ℕ) (lines : List Line)
    → All (λ line. line.valid ≡ true) lines
    → find tag lines ≡ none
    → All (λ line. line.tag ≢ tag) lines
unfolding find
find-eq-none tag [] v h = tt
find-eq-none tag (line ∷ lines) v h = (ground arith, find-eq-none tag lines v.1 (ground arith))
