-- ===== src/Providers.antt =====
-- Protocol ids and connectors: api/app/services/protocols/ids.py and
-- api/app/services/providers/registry.py. The functions of Python's `str` are an interface: `fold` is
-- `lower().strip()`, `dots` replaces slashes by dots, `family_of` is `split(".", 1)[0]` and `is_azure_url`
-- says whether the lower-case text contains ".openai.azure.com".
use llmxy.Prelude.{
  Option, none, some, List, [], ◌∷◌, Bool, false, if◌then◌else◌, ◌&&◌, ◌||◌, String, str_eq,
}
use llmxy.Models.{Model, Channel}

-- `dict.get(key, default)`
unfoldable pub get_or : List (String × String) → String → String → String
get_or [] key default = default
get_or ((k, v) ∷ rest) key default = if str_eq k key then v else get_or rest key default

unfoldable pub has_text : String → List String → Bool
has_text s [] = false
has_text s (t ∷ ts) = str_eq t s || has_text s ts

-- `value or default`
unfoldable pub or_text : Option String → String → String
or_text none default = default
or_text (some s) default = if str_eq s "" then default else s

abbrev pub openai_chat : String
openai_chat = "openai.chat"

abbrev pub chat_protocols : List String
chat_protocols =
    "openai.chat" ∷ "openai.responses" ∷ "anthropic.messages" ∷ "gemini.generate_content" ∷ []

abbrev pub aliases : List (String × String)
aliases =
    ("openai", "openai.chat")
    ∷ ("openai_chat", "openai.chat")
    ∷ ("openai-chat", "openai.chat")
    ∷ ("openai.chat_completions", "openai.chat")
    ∷ ("openai.chat-completions", "openai.chat")
    ∷ ("openai.chat.completions", "openai.chat")
    ∷ ("chat", "openai.chat")
    ∷ ("chat.completions", "openai.chat")
    ∷ ("responses", "openai.responses")
    ∷ ("response", "openai.responses")
    ∷ ("openai_response", "openai.responses")
    ∷ ("openai-response", "openai.responses")
    ∷ ("openai.responses", "openai.responses")
    ∷ ("openai.response", "openai.responses")
    ∷ ("embedding", "openai.embeddings")
    ∷ ("embeddings", "openai.embeddings")
    ∷ ("openai.embedding", "openai.embeddings")
    ∷ ("openai.embeddings", "openai.embeddings")
    ∷ ("image", "openai.images")
    ∷ ("images", "openai.images")
    ∷ ("openai.image", "openai.images")
    ∷ ("openai.images", "openai.images")
    ∷ ("anthropic", "anthropic.messages")
    ∷ ("message", "anthropic.messages")
    ∷ ("messages", "anthropic.messages")
    ∷ ("anthropic.message", "anthropic.messages")
    ∷ ("anthropic.messages", "anthropic.messages")
    ∷ ("gemini", "gemini.generate_content")
    ∷ ("gemini.generatecontent", "gemini.generate_content")
    ∷ ("gemini.generate_content", "gemini.generate_content")
    ∷ ("gemini.embedding", "gemini.embeddings")
    ∷ ("gemini.embeddings", "gemini.embeddings")
    ∷ ("gemini.image", "gemini.images")
    ∷ ("gemini.images", "gemini.images")
    ∷ ("azure", "openai.chat")
    ∷ ("azure_openai", "openai.chat")
    ∷ ("azure-openai", "openai.chat")
    ∷ ("openai-compatible", "openai.chat")
    ∷ []

abbrev pub default_by_family_kind : List ((String × String) × String)
default_by_family_kind =
    (("openai", "chat"), "openai.chat")
    ∷ (("openai", "embedding"), "openai.embeddings")
    ∷ (("openai", "image"), "openai.images")
    ∷ (("anthropic", "chat"), "anthropic.messages")
    ∷ (("gemini", "chat"), "gemini.generate_content")
    ∷ (("gemini", "embedding"), "gemini.embeddings")
    ∷ (("gemini", "image"), "gemini.images")
    ∷ []

unfoldable pub default_for : List ((String × String) × String) → String → String → String → String
default_for [] family kind default = default
default_for (((f, k), v) ∷ rest) family kind default =
    if str_eq f family && str_eq k kind then v else default_for rest family kind default

abbrev pub connector_aliases : List (String × String)
connector_aliases =
    ("azure", "azure_openai")
    ∷ ("azure-openai", "azure_openai")
    ∷ ("openai-compatible", "openai")
    ∷ ("openai.chat", "openai")
    ∷ ("openai.responses", "openai")
    ∷ ("openai.embeddings", "openai")
    ∷ ("openai.images", "openai")
    ∷ ("anthropic.messages", "anthropic")
    ∷ ("gemini.generate_content", "gemini")
    ∷ ("gemini.embeddings", "gemini")
    ∷ ("gemini.images", "gemini")
    ∷ []

abbrev pub openai_protocols : List String
openai_protocols = "openai.chat" ∷ "openai.responses" ∷ "openai.embeddings" ∷ "openai.images" ∷ []

abbrev pub all_kinds : List String
all_kinds = "chat" ∷ "embedding" ∷ "image" ∷ []

-- `_CONNECTOR_PROTOCOLS` and `_CONNECTOR_KINDS`
abbrev pub connector_protocols : List (String × List String)
connector_protocols =
    ("openai", openai_protocols)
    ∷ ("azure_openai", openai_protocols)
    ∷ ("anthropic", "anthropic.messages" ∷ [])
    ∷ ("gemini", "gemini.generate_content" ∷ "gemini.embeddings" ∷ "gemini.images" ∷ [])
    ∷ []

abbrev pub connector_kinds : List (String × List String)
connector_kinds =
    ("openai", all_kinds)
    ∷ ("azure_openai", all_kinds)
    ∷ ("anthropic", "chat" ∷ [])
    ∷ ("gemini", all_kinds)
    ∷ []

unfoldable pub names_of : String → List (String × List String) → List String
names_of c [] = []
names_of c ((k, names) ∷ rest) = if str_eq k c then names else names_of c rest

-- `_IMAGE_REGISTRY`
abbrev pub image_connectors : List String
image_connectors = "openai" ∷ "azure_openai" ∷ "gemini" ∷ []

-- The functions of Python's `str` that the look-ups use.
pub record TextOps : Type 0 where
  pub fold : String → String
  pub dots : String → String
  pub family_of : String → String
  pub is_azure_url : String → Bool

module _ (str : TextOps) where
  -- `normalize_protocol` without a kind
  unfoldable pub normalize : Option String → String
  unfolding get_or or_text
  normalize protocol =
      let raw = str.dots (str.fold (or_text protocol openai_chat)) in get_or aliases raw raw

  unfoldable pub protocol_for_kind : Option String → Option String → String
  unfolding normalize has_text default_for or_text
  protocol_for_kind protocol kind =
      let value = normalize protocol in
      let normalized_kind = str.fold (or_text kind "chat") in
      if str_eq normalized_kind "chat" && has_text value chat_protocols
      then value
      else default_for default_by_family_kind (str.family_of value) normalized_kind value

  unfoldable pub normalize_protocol : Option String → Option String → String
  unfolding protocol_for_kind
  normalize_protocol protocol none = normalize protocol
  normalize_protocol protocol (some kind) =
      if str_eq kind ""
      then normalize protocol
      else protocol_for_kind (some (normalize protocol)) (some kind)

  unfoldable pub normalize_connector : Option String → String
  unfolding get_or or_text
  normalize_connector connector_type =
      let raw = str.fold (or_text connector_type "openai") in get_or connector_aliases raw raw

  unfoldable pub connector_protocol : Option String → Option String → String
  unfolding normalize_connector protocol_for_kind or_text
  connector_protocol connector_type kind =
      let connector = normalize_connector connector_type in
      let kind' = some (or_text kind "chat") in
      if str_eq connector "anthropic"
      then "anthropic.messages"
      else if str_eq connector "gemini"
      then protocol_for_kind (some "gemini.generate_content") kind'
      else protocol_for_kind (some openai_chat) kind'

  unfoldable pub connector_supports_protocol : Option String → Option String → Bool
  unfolding normalize_connector normalize names_of has_text
  connector_supports_protocol connector_type protocol =
      has_text (normalize protocol)
        (names_of (normalize_connector connector_type) connector_protocols)

  unfoldable pub connector_supports_kind : Option String → Option String → Bool
  unfolding normalize_connector names_of has_text or_text
  connector_supports_kind connector_type kind =
      has_text (or_text kind "chat") (names_of (normalize_connector connector_type) connector_kinds)

  unfoldable pub channel_connector : Channel → String
  unfolding normalize_connector has_text or_text
  channel_connector channel =
      let raw_provider = str.fold channel.provider_type in
      let connector = normalize_connector (some channel.connector_type) in
      if has_text raw_provider ("azure" ∷ "azure_openai" ∷ "azure-openai" ∷ [])
        && str_eq connector "openai"
      then "azure_openai"
      else if str_eq connector "openai" && str.is_azure_url channel.base_url
      then "azure_openai"
      else normalize_connector (some (or_text (some channel.connector_type) raw_provider))

  unfoldable pub channel_protocol : Channel → Option String → String
  unfolding channel_connector connector_protocol normalize_protocol or_text
  channel_protocol channel kind =
      normalize_protocol
        (some (
          or_text (some channel.provider_type)
            (connector_protocol (some (channel_connector channel)) kind)))
        kind

  -- Without an argument `requested`.
  unfoldable pub resolve_upstream_protocol : Model → Channel → String
  unfolding normalize_protocol channel_protocol or_text
  resolve_upstream_protocol model channel =
      if str_eq (or_text model.upstream_protocol "") ""
      then channel_protocol channel (some model.kind)
      else normalize_protocol model.upstream_protocol (some model.kind)

  unfoldable pub get_image_adapter : String → Bool
  unfolding normalize_connector has_text
  get_image_adapter protocol = has_text (normalize_connector (some protocol)) image_connectors
