-- ===== src/Proc/Exec/Arguments.antt =====
-- The argument block as the new program reads it.
use create_an_os.Prelude.{
  ℕ, zero, suc, ◌+◌, ◌-◌, ◌≤◌, ◌<◌, ◌≡◌, ◌≢◌, refl, sym, ap, ◌∙◌, arith, List, [], ◌∷◌, ◌++◌, true,
  false, ltb, length, length-append, drop, ok, read, ok-injective, set, length-set, read-set_ne,
  write-ok,
}
use create_an_os.Fs.File.{copy_into}
use create_an_os.Fs.File.Copy.{copy_into-copy_from}
use create_an_os.Fs.Directory.{c_string}
use create_an_os.Proc.Exec.{stack_base, put_pointer, push_args}

-- A copy leaves what stands behind it.
put_behind :
    (b : ℕ) (bytes buffer : List ℕ) (at : ℕ)
    → at < length buffer
    → copy_into at (b ∷ bytes) buffer ≡ copy_into (at + 1) bytes (set buffer at b)
unfolding copy_into
put_behind b bytes buffer at inside = rw (write-ok buffer at b inside)

copy_nothing : (at : ℕ) (buffer : List ℕ) → copy_into at [] buffer ≡ ok buffer
unfolding copy_into
copy_nothing at buffer = refl

pub copy_into-behind :
    (bytes buffer buffer' : List ℕ) (at j : ℕ)
    → at + length bytes ≤ length buffer
    → copy_into at bytes buffer ≡ ok buffer'
    → at + length bytes ≤ j
    → read buffer' j ≡ read buffer j
copy_into-behind [] buffer buffer' at j h e low =
    ap (λ b. read b j) (sym (ok-injective buffer buffer' (sym (copy_nothing at buffer) ∙ e)))
copy_into-behind (b ∷ bytes) buffer buffer' at j h e low =
    copy_into-behind bytes (set buffer at b) buffer' (at + 1) j
      (omega (arith, length-set buffer at b)) (sym (put_behind b bytes buffer at (omega arith)) ∙ e)
      (omega arith)
    ∙ read-set_ne buffer at j b (omega arith)

-- A text without a terminator in it.
abbrev pub IsString : List ℕ → Type 0
IsString [] = Unit {0}
IsString (c ∷ s) = (c ≢ 0) × IsString s

-- The string `s` stands at `q` with its terminator.
abbrev pub StringAt : List ℕ → ℕ → List ℕ → Type 0
StringAt stack q [] = read stack q ≡ ok 0
StringAt stack q (c ∷ s) = (read stack q ≡ ok c) × StringAt stack (q + 1) s

drop-read : (xs : List ℕ) (q c : ℕ) → read xs q ≡ ok c → drop q xs ≡ c ∷ drop (q + 1) xs
unfolding read
drop-read [] q c e = absurd (cc)
drop-read (x ∷ xs) zero c e = ap (λ y. y ∷ xs) (ok-injective x c e)
drop-read (x ∷ xs) (suc q) c e =
    let next : suc q + 1 ≡ suc (q + 1) = omega arith in rw next (drop-read xs q c e)

pub c_string-StringAt :
    (stack : List ℕ) (q : ℕ) (s : List ℕ)
    → IsString s
    → StringAt stack q s
    → c_string (drop q stack) ≡ ok s
unfolding c_string
c_string-StringAt stack q [] text at = rw (drop-read stack q 0 at) refl
c_string-StringAt stack q (c ∷ s) text at =
    rw (drop-read stack q c at.0, c_string-StringAt stack (q + 1) s text.1 at.1)
      (ground (arith, text.0))

StringAt-kept :
    (stack stack' : List ℕ) (q : ℕ) (s : List ℕ)
    → ((j : ℕ) → q ≤ j → read stack' j ≡ read stack j)
    → StringAt stack q s
    → StringAt stack' q s
StringAt-kept stack stack' q [] same at = same q (omega arith) ∙ at
StringAt-kept stack stack' q (c ∷ s) same at = (
  same q (omega arith) ∙ at.0,
  StringAt-kept stack stack' (q + 1) s (λ j low. same j (omega arith)) at.1,
)

-- What a copy of the bytes of a string makes of the buffer.
StringAt-placed :
    (stack : List ℕ) (q : ℕ) (s : List ℕ)
    → ((j : ℕ) → j < length (s ++ (0 ∷ [])) → read stack (q + j) ≡ read (s ++ (0 ∷ [])) j)
    → StringAt stack q s
unfolding read
StringAt-placed stack q [] placed = ap (read stack) (omega arith) ∙ placed 0 (omega arith)
StringAt-placed stack q (c ∷ s) placed = (
  ap (read stack) (omega arith) ∙ placed 0 (omega arith),
  StringAt-placed stack (q + 1) s
      (λ j low. ap (read stack) (omega arith) ∙ placed (suc j) (omega arith)),
)

-- Where the strings go, from `p` downwards, and that there is room for them.
abbrev pub below : ℕ → List ℕ → ℕ
below p arg = p - (length arg + 1)

abbrev pub positions : ℕ → List (List ℕ) → List ℕ
positions p [] = []
positions p (arg ∷ args) = (stack_base + below p arg) ∷ positions (below p arg) args

abbrev pub bottom : ℕ → List (List ℕ) → ℕ
bottom p [] = p
bottom p (arg ∷ args) = bottom (below p arg) args

abbrev pub Fit : ℕ → List (List ℕ) → Type 0
Fit p [] = Unit {0}
Fit p (arg ∷ args) = (length arg + 1 ≤ p) × Fit (below p arg) args

abbrev pub AreStrings : List (List ℕ) → Type 0
AreStrings [] = Unit {0}
AreStrings (arg ∷ args) = IsString arg × AreStrings args

abbrev pub StringsAt : List ℕ → ℕ → List (List ℕ) → Type 0
StringsAt stack p [] = Unit {0}
StringsAt stack p (arg ∷ args) =
    StringAt stack (below p arg) arg × StringsAt stack (below p arg) args

pub bottom-le : (p : ℕ) (args : List (List ℕ)) → bottom p args ≤ p
bottom-le p [] = omega arith
bottom-le p (arg ∷ args) = omega (arith, bottom-le (below p arg) args)

pub StringsAt-kept :
    (stack stack' : List ℕ) (p : ℕ) (args : List (List ℕ))
    → ((j : ℕ) → bottom p args ≤ j → read stack' j ≡ read stack j)
    → StringsAt stack p args
    → StringsAt stack' p args
StringsAt-kept stack stack' p [] same at = tt
StringsAt-kept stack stack' p (arg ∷ args) same at = (
  StringAt-kept stack stack' (below p arg) arg
      (λ j low. same j (omega (arith, bottom-le (below p arg) args))) at.0,
  StringsAt-kept stack stack' (below p arg) args same at.1,
)

push_args-step :
    (arg : List ℕ) (args : List (List ℕ)) (p : ℕ) (stack stack' nargv : List ℕ)
    → length arg + 1 ≤ p
    → length nargv < 16
    → copy_into (below p arg) (arg ++ (0 ∷ [])) stack ≡ ok stack'
    → push_args (arg ∷ args) p stack nargv
      ≡ push_args args (below p arg) stack' (nargv ++ ((stack_base + below p arg) ∷ []))
unfolding push_args put_pointer
push_args-step arg args p stack stack' nargv h few e =
    let fits : ltb p (length arg + 1) ≡ false = ground (arith, h) in
    let free : ltb (length nargv) 16 ≡ true = ground (arith, few) in rw (fits, e, free) refl

-- What the loop leaves.
pub record Pushed (args : List (List ℕ)) (p : ℕ) (stack nargv stack' : List ℕ) : Type 0 where
  pub runs : push_args args p stack nargv ≡ ok (bottom p args, stack', nargv ++ positions p args)
  pub size : length stack' ≡ length stack
  pub kept : (j : ℕ) → p ≤ j → read stack' j ≡ read stack j
  pub strings : StringsAt stack' p args

append-nil : (xs : List ℕ) → xs ++ [] ≡ xs
append-nil [] = refl
append-nil (x ∷ xs) = ap (λ t. x ∷ t) (append-nil xs)

append_assoc : (xs ys zs : List ℕ) → (xs ++ ys) ++ zs ≡ xs ++ (ys ++ zs)
append_assoc [] ys zs = refl
append_assoc (x ∷ xs) ys zs = ap (λ t. x ∷ t) (append_assoc xs ys zs)

pub push_args-Pushed :
    (args : List (List ℕ)) (p : ℕ) (stack nargv : List ℕ)
    → p ≤ length stack
    → Fit p args
    → length nargv + length args ≤ 16
    → (stack' : List ℕ) × Pushed args p stack nargv stack'
push_args-Pushed [] p stack nargv h fit few = (
  stack,
  record {
    runs = unfold push_args in ap (λ t. ok (p, stack, t)) (sym (append-nil nargv));
    size = refl;
    kept = λ j low. refl;
    strings = tt;
  },
)
push_args-Pushed (arg ∷ args) p stack nargv h fit few =
    let q = below p arg in
    let bytes = arg ++ (0 ∷ []) in
    let long : length bytes ≡ length arg + 1 = length-append arg (0 ∷ []) in
    let (stack₁, c) = copy_into-copy_from q bytes stack (omega (arith, fit.0, long)) in
    let more = nargv ++ ((stack_base + q) ∷ []) in
    let (stack₂, r) =
      push_args-Pushed args q stack₁ more (omega (arith, c.size)) fit.1
        (omega (arith, length-append nargv ((stack_base + q) ∷ []))) in
    (
      stack₂,
      record {
        runs =
            push_args-step arg args p stack stack₁ nargv fit.0 (omega arith) c.runs
            ∙ r.runs
            ∙ ap (λ t. ok (bottom q args, stack₂, t))
                (append_assoc nargv ((stack_base + q) ∷ []) (positions q args));
        size = r.size ∙ c.size;
        kept = λ j low.
            r.kept j (omega arith)
            ∙ copy_into-behind bytes stack stack₁ q j (omega (arith, fit.0, long)) c.runs
                (omega (arith, fit.0, long));
        strings = (
          StringAt-kept stack₁ stack₂ q arg (λ j low. r.kept j low)
              (StringAt-placed stack₁ q arg c.placed),
          r.strings,
        );
      },
    )
