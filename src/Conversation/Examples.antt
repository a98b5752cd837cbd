-- ===== src/Conversation/Examples.antt =====
-- Requests of a conversation.
use yjdlagent.Prelude.{◌≡◌, refl, none, some, true}
use yjdlagent.Conversation.{summary, social, conversation_kind}
use yjdlagent.Conversation.Kinds.{
  occurs, begins, visible, reference_kind, conversation_kind-reference,
}

asks_summary : conversation_kind "总结 一下" ≡ some summary
unfolding conversation_kind
asks_summary = refl

thanks : conversation_kind "谢谢！" ≡ some social
unfolding conversation_kind
thanks = refl

asks_data : conversation_kind "哪些社区房价低" ≡ none
unfolding conversation_kind
asks_data = refl

finds_spread : occurs "总结" "请 总 结" ≡ true
unfolding occurs
finds_spread = refl

begins_spread : begins "总结" " 总 结吧" ≡ true
unfolding begins
begins_spread = refl

counts_visible : visible "总结 一下 " ≡ 4
unfolding visible
counts_visible = refl

conversation_kind-reference_example : conversation_kind "总结 一下" ≡ reference_kind "总结 一下"
conversation_kind-reference_example = conversation_kind-reference "总结 一下"
