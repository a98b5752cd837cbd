-- ===== src/Conversation/Kinds.antt =====
-- app/agent/conversation.py, `conversation_kind`: a reference that reads the query as it was written, passing
-- over its white space, in place of searching a compacted copy of it.
use Prim.Native.Char.{code}
use yjdlagent.Prelude.{
  ℕ, suc, ◌≡◌, refl, ◌∙◌, ap, Bool, true, false, Option, none, some, List, [], ◌∷◌, String, leb,
  ◌==◌, ◌&&◌, ◌||◌, Bool-cases, inl, inr, if◌then◌else◌,
}
use yjdlagent.Table.{any}
use yjdlagent.Text.{is_space, starts_with, is_in, len}
use yjdlagent.Conversation.{ConversationKind, summary, social, compact, kind_of, conversation_kind}

-- The query begins with the characters of the term, with any white space before each of them.
unfoldable pub begins : String → String → Bool
unfolding is_space
begins String.[] query = true
begins (String.◌∷◌ c term) String.[] = false
begins (String.◌∷◌ c term) (String.◌∷◌ d query) =
    let later = begins (String.◌∷◌ c term) query in
    let rest = begins term query in if is_space (code d) then later else code c == code d && rest

-- The term stands somewhere in the query, with any white space between its characters.
unfoldable pub occurs : String → String → Bool
unfolding begins is_space
occurs term String.[] = begins term String.[]
occurs term (String.◌∷◌ d query) =
    let later = occurs term query in
    if is_space (code d) then later else begins term (String.◌∷◌ d query) || later

-- the characters that are no white space
unfoldable pub visible : String → ℕ
unfolding is_space
visible String.[] = 0
visible (String.◌∷◌ d query) =
    let rest = visible query in if is_space (code d) then rest else suc rest

abbrev pub mentions : List String → String → Bool
mentions terms query = any (λ (t : String). occurs t query) terms

-- It asks for a summary by one of these phrases, or by 总结 and a word for the conversation.
abbrev pub asks_for_summary : String → Bool
asks_for_summary query =
    mentions ("总结刚才" ∷ "总结一下" ∷ "我们都说了什么" ∷ "回顾刚才" ∷ "刚才这段对话" ∷ "筛了哪些条件" ∷ "用了哪些条件" ∷ []) query
    || occurs "总结" query && mentions ("刚才" ∷ "之前" ∷ "这段对话" ∷ "筛选条件" ∷ "查询条件" ∷ []) query

abbrev pub says_thanks : String → Bool
says_thanks query =
    leb (visible query) 30 && mentions ("谢谢" ∷ "感谢" ∷ "干得不错" ∷ "做得不错" ∷ "可以了" ∷ "辛苦了" ∷ []) query

abbrev pub reference_kind : String → Option ConversationKind
reference_kind query =
    if asks_for_summary query then some summary else if says_thanks query then some social else none

begins-compact : (term query : String) → starts_with term (compact query) ≡ begins term query
unfolding begins starts_with compact
begins-compact String.[] query = refl
begins-compact (String.◌∷◌ c term) String.[] = refl
begins-compact (String.◌∷◌ c term) (String.◌∷◌ d query) = elim (Bool-cases (is_space (code d))) [
  | inl e ↦ rw e (begins-compact (String.◌∷◌ c term) query)
  | inr e ↦ rw e (ap (λ b. code c == code d && b) (begins-compact term query))
]

is_in-step : (b rest : Bool) → (if b then true else rest) ≡ (b || rest)
is_in-step true rest = refl
is_in-step false rest = refl

occurs-compact : (term query : String) → is_in term (compact query) ≡ occurs term query
unfolding occurs is_in compact
occurs-compact term String.[] = begins-compact term String.[]
occurs-compact term (String.◌∷◌ d query) = elim (Bool-cases (is_space (code d))) [
  | inl e ↦ rw e (occurs-compact term query)
  | inr e ↦
      let compacted : starts_with term
            (if is_space (code d) then compact query else String.◌∷◌ d (compact query))
          ≡ begins term (String.◌∷◌ d query) =
        begins-compact term (String.◌∷◌ d query) in
      let first : starts_with term (String.◌∷◌ d (compact query))
          ≡ begins term (String.◌∷◌ d query) =
        rw e at compacted in
      rw e (
        is_in-step (starts_with term (String.◌∷◌ d (compact query))) (is_in term (compact query))
        ∙ rw (first, occurs-compact term query) refl)
]

visible-compact : (query : String) → len (compact query) ≡ visible query
unfolding visible len compact
visible-compact String.[] = refl
visible-compact (String.◌∷◌ d query) = elim (Bool-cases (is_space (code d))) [
  | inl e ↦ rw e (visible-compact query)
  | inr e ↦ rw e (ap suc (visible-compact query))
]

-- The kind of a query is that of the reference: a summary if the query has one of seven phrases, or
-- 总结 and one of five words for the conversation; otherwise thanks, if it has one of six phrases and
-- at most 30 characters that are no white space; and none otherwise. White space may stand between
-- the characters of a phrase.
pub conversation_kind-reference : (query : String) → conversation_kind query ≡ reference_kind query
unfolding conversation_kind kind_of any
conversation_kind-reference query = simp (occurs-compact, visible-compact) refl
