-- ===== src/Conversation.antt =====
-- app/agent/conversation.py: requests for a summary of the conversation, and thanks. A text is found
-- in another one by code points. An entry of the memory is its query, answer and route, as
-- `_execute` builds it; the digest of the stored state has entries of the same form.
pub mod Kinds
pub mod Context
pub mod State
pub mod Followup
mod Examples
use Prim.Native.Char.{Char, code}
use Prim.Native.String.{◌++◌ as cat}
use yjdlagent.Prelude.{
  ℕ, zero, suc, ◌-◌, Bool, true, false, Option, none, some, List, [], ◌∷◌, ◌++◌, String, leb, ◌==◌,
  ◌&&◌, ◌||◌, not, length, ◌≡◌, refl, Bool-cases, inl, inr, drop, str_eq, if◌then◌else◌,
}
use yjdlagent.Table.{select, any}
use yjdlagent.Text.{is_in, join, is_space, strip, len}

pub data ConversationKind : Type 0 where
  summary social : ConversationKind

abbrev summary_terms : List String
summary_terms = "总结刚才" ∷ "总结一下" ∷ "我们都说了什么" ∷ "回顾刚才" ∷ "刚才这段对话" ∷ "筛了哪些条件" ∷ "用了哪些条件" ∷ []

abbrev summary_context_terms : List String
summary_context_terms = "刚才" ∷ "之前" ∷ "这段对话" ∷ "筛选条件" ∷ "查询条件" ∷ []

abbrev social_terms : List String
social_terms = "谢谢" ∷ "感谢" ∷ "干得不错" ∷ "做得不错" ∷ "可以了" ∷ "辛苦了" ∷ []

-- "".join(query.split())
unfoldable pub compact : String → String
unfolding is_space
compact String.[] = String.[]
compact (String.◌∷◌ c s) =
    let rest = compact s in if is_space (code c) then rest else String.◌∷◌ c rest

abbrev any_in : List String → String → Bool
any_in terms text = any (λ (t : String). is_in t text) terms

unfoldable pub kind_of : String → Option ConversationKind
unfolding is_in any len
kind_of text =
    if any_in summary_terms text || is_in "总结" text && any_in summary_context_terms text
    then some summary
    else if leb (len text) 30 && any_in social_terms text
    then some social
    else none

unfoldable pub conversation_kind : String → Option ConversationKind
unfolding kind_of compact
conversation_kind query = kind_of (compact query)

pub record Entry : Type 0 where
  pub query : String
  pub answer : String
  pub route : Option String

-- item.get("route") in {"MAP_QUERY", "RAG_QA", "HYBRID"}
abbrev is_useful : Option String → Bool
is_useful none = false
is_useful (some r) = str_eq r "MAP_QUERY" || str_eq r "RAG_QA" || str_eq r "HYBRID"

-- xs[-6:]
abbrev last_six : List Entry → List Entry
last_six xs = drop (length xs - 6) xs

-- What is told of an entry.
unfoldable pub lines_of : Entry → List String
unfolding strip
lines_of e =
    let query = strip e.query in
    let answer = strip e.answer in
    (if str_eq query "" then [] else cat "您提出了“" (cat query "”") ∷ [])
    ++ (if str_eq answer "" then [] else cat "系统结果是：" answer ∷ [])

abbrev all_lines : List Entry → List String
all_lines [] = []
all_lines (e ∷ es) = lines_of e ++ all_lines es

abbrev told : List Entry → String
told [] = "这段对话里还没有已完成的查询或知识问答。"
told (e ∷ es) = cat "刚才的对话可以概括为：" (cat (join "；" (all_lines (e ∷ es))) "。")

-- the digest of the state, where there is a state and no useful memory
abbrev or_digest : List Entry → Option (List Entry) → List Entry
or_digest [] none = []
or_digest [] (some digest) = last_six digest
or_digest (e ∷ es) state = e ∷ es

unfoldable pub conversation_answer : ConversationKind → List Entry → Option (List Entry) → String
unfolding select lines_of join
conversation_answer social memory state = "谢谢您的认可。您可以继续补充筛选条件，我会沿用刚才已经确认的查询范围。"
conversation_answer summary memory state =
    told (or_digest (last_six (select (λ (e : Entry). is_useful e.route) memory)) state)
