-- ===== src/Status/Escape.antt =====
-- The text that strcpyxml of pspnet_adhocctl_server/status.c writes, against the escaped form of
-- its input.
use aemu.Base.{
  ℕ, zero, suc, ◌+◌, ◌-◌, ◌<◌, ◌≡◌, refl, Bool, some, [], ◌∷◌, ◌++◌, ◌==◌, ltb, if◌then◌else◌,
  length, length-append, take, replicate, arith, inl, inr, Bool-cases, ap, ◌∙◌, lt→ltb, count,
  count-append, ◌||◌, sym,
}
use aemu.Bytes.{Bytes, c_string}
use aemu.Status.{quot, lt_entity, gt_entity, amp, xml_loop, strcpyxml}

-- The escaped form of a character, and of a text.
abbrev pub escape_char : ℕ → Bytes
escape_char c =
    if c == b'"'
    then quot
    else if c == b'<'
    then lt_entity
    else if c == b'>'
    then gt_entity
    else if c == b'&'
    then amp
    else c ∷ []

abbrev pub escape : Bytes → Bytes
escape [] = []
escape (c ∷ cs) = escape_char c ++ escape cs

-- `out` is the escaped form of a prefix of the text, fits with the bytes before it and a NUL, and is
-- the whole escaped text if that fits.
abbrev pub Escaped : ℕ → ℕ → Bytes → Bytes → Type 0
Escaped size written text out =
    (k : ℕ) × (out ≡ escape (take k text))
    × (written + length out < size)
    × (written + length (escape text) < size → out ≡ escape text)

-- What the loop writes for one character, in one form for the five cases.
xml_loop-step :
    (size written c : ℕ) (cs : Bytes)
    → written < size
    → xml_loop size written (c ∷ cs) ≡ (
        if ltb (written + length (escape_char c)) size
        then escape_char c ++ xml_loop size (written + length (escape_char c)) cs
        else if length (escape_char c) == 1
        then xml_loop size written cs
        else [])
unfolding xml_loop
xml_loop-step size written c cs h = ground arith

nil_of_short : (xs : Bytes) → length xs ≡ 0 → xs ≡ []
nil_of_short [] h = refl
nil_of_short (x ∷ xs) h = ground arith

xml_loop-Escaped :
    (size written : ℕ) (text : Bytes)
    → written < size
    → Escaped size written text (xml_loop size written text)
xml_loop-Escaped size written [] h = unfold xml_loop in (0, refl, omega arith, λ _. refl)
xml_loop-Escaped size written (c ∷ cs) h =
    rw (xml_loop-step size written c cs h)
      (elim (Bool-cases (ltb (written + length (escape_char c)) size)) [
        | inl fits ↦
            let (k, e, short, whole) =
              xml_loop-Escaped size (written + length (escape_char c)) cs (ground arith) in
            rw fits (
              suc k,
              ap (◌++◌ (escape_char c)) e,
              omega (
                arith,
                length-append (escape_char c) (xml_loop size (written + length (escape_char c)) cs),
              ),
              λ room.
                  ap (◌++◌ (escape_char c))
                    (whole (omega (arith, length-append (escape_char c) (escape cs)))),
            )
        | inr full ↦ rw full (elim (Bool-cases (length (escape_char c) == 1)) [
          | inl plain ↦
              let (k, e, short, whole) = xml_loop-Escaped size written cs h in
              let nothing : length (xml_loop size written cs) ≡ 0 = ground arith in
              rw plain (
                0,
                nil_of_short _ nothing,
                short,
                λ room. absurd (ground (arith, length-append (escape_char c) (escape cs))),
              )
          | inr entity ↦ rw entity (
            0,
            refl,
            omega arith,
            λ room. absurd (ground (arith, length-append (escape_char c) (escape cs))),
          )
        ])
      ])

-- For every text and every size above 0, strcpyxml fills the buffer with the escaped form of a
-- prefix of the text, cut between characters, and at least one NUL behind it up to the size.
pub strcpyxml-escape :
    (text : Bytes) (size : ℕ)
    → 0 < size
    → (k : ℕ) × (strcpyxml (some text) size
        ≡ some (
            escape (take k (c_string text))
            ++ replicate (size - length (escape (take k (c_string text)))) 0))
      × (length (escape (take k (c_string text))) < size)
unfolding strcpyxml
strcpyxml-escape text size h =
    let (k, e, short, whole) = xml_loop-Escaped size 0 (c_string text) h in
    (k, rw (lt→ltb 0 size h, e), rw (← e) (omega arith))

-- Where the escaped form of the whole text is shorter than the buffer, strcpyxml fills the buffer
-- with it and with NULs.
strcpyxml-whole :
    (text : Bytes) (size : ℕ)
    → length (escape (c_string text)) < size
    → strcpyxml (some text) size
      ≡ some (escape (c_string text) ++ replicate (size - length (escape (c_string text))) 0)
unfolding strcpyxml
strcpyxml-whole text size h =
    let positive : 0 < size = omega arith in
    let (k, e, short, whole) = xml_loop-Escaped size 0 (c_string text) positive in
    rw (lt→ltb 0 size positive, whole (omega arith))

-- No quote and no angle bracket is left.
pub is_markup : ℕ → Bool
is_markup c = c == b'"' || c == b'<' || c == b'>'

escape-safe : (text : Bytes) → count is_markup (escape text) ≡ 0
unfolding is_markup
escape-safe [] = refl
escape-safe (c ∷ cs) =
    ground (arith, escape-safe cs, count-append is_markup (escape_char c) (escape cs))

nul-safe : (n : ℕ) → count is_markup (replicate n 0) ≡ 0
unfolding is_markup
nul-safe zero = refl
nul-safe (suc n) = omega (arith, nul-safe n)

same_content : {a b : Bytes} → some a ≡ some b → a ≡ b
same_content h = cc

-- For every text and every size, if strcpyxml returns a buffer, the buffer holds no double quote
-- and no angle bracket.
pub strcpyxml-no_markup :
    (text : Bytes) (size : ℕ) (out : Bytes)
    → strcpyxml (some text) size ≡ some out
    → count is_markup out ≡ 0
strcpyxml-no_markup text zero out h = absurd (unfold strcpyxml in (cc h))
strcpyxml-no_markup text (suc size) out h =
    let (k, e, short) = strcpyxml-escape text (suc size) (omega arith) in
    let body = escape (take k (c_string text)) in
    let same : out ≡ body ++ replicate (suc size - length body) 0 = same_content (sym h ∙ e) in
    rw same (
      omega (
        arith,
        count-append is_markup body (replicate (suc size - length body) 0),
        escape-safe (take k (c_string text)),
        nul-safe (suc size - length body),
      ))
