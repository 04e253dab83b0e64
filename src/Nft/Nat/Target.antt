-- ===== src/Nft/Nat/Target.antt =====
-- internal/backend/nft/compile.go, splitToDest: the targets of DNAT rules are taken apart as written.
use Prim.Native.String.append
use Prim.Native.Char.{Char, code}
use better_firewall.Prelude.{
  ℕ, ◌+◌, ◌≡◌, refl, ◌∙◌, ap, true, false, not, String, some, ltb, nat_eq, starts_char, count_char,
  cut_char, all_chars, ◌<>◌, arith, and_true,
}
use better_firewall.Nft.Nat.{split_to_dest, split_colon, or_empty}

-- A text without a character.
abbrev pub Free : ℕ → String → Type 0
Free k s = all_chars (λ c. not (nat_eq c k)) s ≡ true

cut_char-append :
    (k : ℕ) (d : Char) (host rest : String)
    → code d ≡ k
    → Free k host
    → cut_char k (host <> String.◌∷◌ d rest) ≡ (host, some rest)
unfolding cut_char all_chars
cut_char-append k d String.[] rest e f =
    let h : nat_eq (code d) k ≡ true = ground (arith, e) in
    rw (append.nil (String.◌∷◌ d rest)) (here h)
  where
    here : nat_eq (code d) k ≡ true → cut_char k (String.◌∷◌ d rest) ≡ ("", some rest)
    here h = rw h refl
cut_char-append k d (String.◌∷◌ c host) rest e f =
    let (p, q) = and_true (not (nat_eq (code c) k)) (all_chars (λ c. not (nat_eq c k)) host) f in
    let h : nat_eq (code c) k ≡ false = ground (arith, p) in
    rw (append.cons c host (String.◌∷◌ d rest), cut_char-append k d host rest e q, h) refl

count_char-append : (k : ℕ) (s t : String) → count_char k (s <> t) ≡ count_char k s + count_char k t
unfolding count_char
count_char-append k String.[] t = rw (append.nil t) (omega arith)
count_char-append k (String.◌∷◌ c s) t =
    rw (append.cons c s t, count_char-append k s t) (omega arith)

count_char-Free : (k : ℕ) (s : String) → Free k s → count_char k s ≡ 0
unfolding count_char all_chars
count_char-Free k String.[] f = refl
count_char-Free k (String.◌∷◌ c s) f =
    let (p, q) = and_true (not (nat_eq (code c) k)) (all_chars (λ c. not (nat_eq c k)) s) f in
    let h : nat_eq (code c) k ≡ false = ground (arith, p) in rw (h, count_char-Free k s q) refl

bracketed_lem :
    (host port : String)
    → Free b']' host
    → split_to_dest (String.◌∷◌ "[" (host <> String.◌∷◌ "]" (String.◌∷◌ ":" port))) ≡ (host, port)
unfolding split_to_dest
bracketed_lem host port f =
    let e = cut_char-append b']' "]" host (String.◌∷◌ ":" port) refl f in
    rw e (ap (λ p. (p.0, port)) e)

one_colon :
    (host port : String)
    → Free b':' host
    → Free b':' port
    → ltb 1 (count_char b':' (host <> String.◌∷◌ ":" port)) ≡ false
unfolding count_char
one_colon host port f g =
    rw
      (
        count_char-append b':' host (String.◌∷◌ ":" port),
        count_char-Free b':' host f,
        count_char-Free b':' port g,
      )
      refl

split_colon-plain :
    (host port : String)
    → Free b':' host
    → Free b':' port
    → split_colon (host <> String.◌∷◌ ":" port) ≡ (host, port)
unfolding split_colon
split_colon-plain host port f g =
    let e = cut_char-append b':' ":" host port refl f in
    rw (one_colon host port f g) (ap (λ p. (p.0, or_empty p.1)) e)

one_char : (c : Char) (t : String) → String.◌∷◌ c "" <> t ≡ String.◌∷◌ c t
one_char c t = rw (append.cons c "" t, append.nil t) refl

bracketed_text :
    (host port : String)
    → "[" <> host <> "]:" <> port ≡ String.◌∷◌ "[" (host <> String.◌∷◌ "]" (String.◌∷◌ ":" port))
bracketed_text host port =
    one_char "[" (host <> "]:" <> port)
    ∙ ap (λ t. String.◌∷◌ "[" (host <> t))
        (append.cons "]" ":" port ∙ ap (String.◌∷◌ "]") (one_char ":" port))

unbracketed : (s : String) → starts_char b'[' s ≡ false → split_to_dest s ≡ split_colon s
unfolding split_to_dest
unbracketed s n = rw n refl

-- The target "[host]:port" is taken apart into the host and the port, if the host has no closing
-- bracket.
pub split_to_dest-bracketed :
    (host port : String)
    → Free b']' host
    → split_to_dest ("[" <> host <> "]:" <> port) ≡ (host, port)
split_to_dest-bracketed host port f =
    ap split_to_dest (bracketed_text host port) ∙ bracketed_lem host port f

-- The target "host:port" is taken apart into the host and the port, if neither has a colon and it does
-- not begin with a bracket.
pub split_to_dest-plain :
    (host port : String)
    → Free b':' host
    → Free b':' port
    → starts_char b'[' (host <> ":" <> port) ≡ false
    → split_to_dest (host <> ":" <> port) ≡ (host, port)
split_to_dest-plain host port f g n =
    unbracketed (host <> ":" <> port) n
    ∙ ap (λ t. split_colon (host <> t)) (one_char ":" port)
    ∙ split_colon-plain host port f g
