-- ===== src/Conversation/Followup/Examples.antt =====
-- A short query after a map query.
use yjdlagent.Python.Samples.{digits}
use yjdlagent.Prelude.{◌≡◌, refl, none, some, [], ◌∷◌}
use yjdlagent.Json.{Fields, null, fields, num}
use yjdlagent.Errors.{ok}
use yjdlagent.Python.{Ensures}
use yjdlagent.Capabilities.{housing}
use yjdlagent.Conversation.Context.{State}
use yjdlagent.Conversation.Followup.{contextualize_with_state, contextualize_followup_query}
use yjdlagent.Conversation.Followup.Extends.{Extends, contextualize_followup_query-Extends}

-- dwellings for at most 7
abbrev cheap_state : State
cheap_state = record {
  entity_context = record {
    entity_type = some housing;
    districts = "中山区" ∷ [];
    business_object_ids = [];
    selected_layer_ids = [];
  };
  query_context = record {
    last_successful_query = some "中山区房价不高于7的住宅";
    route = none;
    tool_name = none;
    tool_arguments = Fields.end;
    hard_filters = fields (("priceMax", num 7) ∷ []);
    preferences = Fields.end;
    result_ref = none;
  };
  map_context = none;
  summary = "";
  history_digest = [];
  updated_at = none;
}

other_district :
    (contextualize_with_state (λ s. s) (λ s. s) digits "西岗区呢？" cheap_state).0
    ≡ "西岗区呢；沿用上一轮已提交条件：查询对象为住宅小区，房价不高于7"
unfolding contextualize_with_state
other_district = refl

contextualize_followup_query-Extends_example :
    Ensures
      (Extends "西岗区呢？")
      (contextualize_followup_query (λ s. s) (λ s. s) digits (λ fs. ok cheap_state) "西岗区呢？" [] null)
contextualize_followup_query-Extends_example =
    contextualize_followup_query-Extends (λ s. s) (λ s. s) digits (λ fs. ok cheap_state) "西岗区呢？" []
      null
