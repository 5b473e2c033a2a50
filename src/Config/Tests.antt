-- ===== src/Config/Tests.antt =====
-- A configuration with a few fields, and the default one written and read.
use beam_drop.Prelude.{◌≡◌, refl, true, Bytes}
use beam_drop.Errors.{ok, err, runtime}
use beam_drop.Text.{codes}
use beam_drop.Config.{AppConfig, default_config, format_config, load_text}
use beam_drop.Config.Bounds.{IsValid, load_text-IsValid}

default_back : load_text (format_config default_config) ≡ ok default_config
unfolding beam_drop.Config.up_to beam_drop.Config.object_at beam_drop.Config.object_text
    beam_drop.Config.string_at beam_drop.Config.load_string_field beam_drop.Config.bool_at
    beam_drop.Config.load_bool_field beam_drop.Config.number_at beam_drop.Config.load_uint16
    beam_drop.Config.load_size beam_drop.Config.load_text beam_drop.Config.format_config
    beam_drop.Text.decimal beam_drop.Text.number_of beam_drop.Text.read_sign
    beam_drop.Text.search_first beam_drop.Text.skip_spaces beam_drop.Text.span beam_drop.Text.stoull
    beam_drop.Text.stoull_value beam_drop.Text.strip beam_drop.Json.field_key
    beam_drop.Json.number_field beam_drop.Json.some_bytes
default_back = refl

abbrev some_fields : Bytes
some_fields =
    codes
      "{ \"server\" : { \"port\" : 80 }, \"transfer\": {\"enable_resume\":true, \"chunk_size\":4} }"

abbrev some_config : AppConfig
some_config = record default_config {
  server = record (default_config.server) { port = 80 };
  transfer = record (default_config.transfer) { enable_resume = true; chunk_size = 4 };
}

some_fields_loaded : load_text some_fields ≡ ok some_config
unfolding beam_drop.Config.up_to beam_drop.Config.object_at beam_drop.Config.object_text
    beam_drop.Config.string_at beam_drop.Config.load_string_field beam_drop.Config.bool_at
    beam_drop.Config.load_bool_field beam_drop.Config.number_at beam_drop.Config.load_uint16
    beam_drop.Config.load_size beam_drop.Config.load_text beam_drop.Config.format_config
    beam_drop.Text.decimal beam_drop.Text.number_of beam_drop.Text.read_sign
    beam_drop.Text.search_first beam_drop.Text.skip_spaces beam_drop.Text.span beam_drop.Text.stoull
    beam_drop.Text.stoull_value beam_drop.Text.strip beam_drop.Json.field_key
    beam_drop.Json.number_field beam_drop.Json.some_bytes
some_fields_loaded = refl

load_text-IsValid_example : IsValid some_config
load_text-IsValid_example = load_text-IsValid some_fields some_config some_fields_loaded

-- A brace in a string ends the object: the fields behind it are not seen.
brace_in_host : load_text (codes "{\"server\":{\"host\":\"a}b\",\"port\":80}}") ≡ ok default_config
unfolding beam_drop.Config.up_to beam_drop.Config.object_at beam_drop.Config.object_text
    beam_drop.Config.string_at beam_drop.Config.load_string_field beam_drop.Config.bool_at
    beam_drop.Config.load_bool_field beam_drop.Config.number_at beam_drop.Config.load_uint16
    beam_drop.Config.load_size beam_drop.Config.load_text beam_drop.Config.format_config
    beam_drop.Text.decimal beam_drop.Text.number_of beam_drop.Text.read_sign
    beam_drop.Text.search_first beam_drop.Text.skip_spaces beam_drop.Text.span beam_drop.Text.stoull
    beam_drop.Text.stoull_value beam_drop.Text.strip beam_drop.Json.field_key
    beam_drop.Json.number_field beam_drop.Json.some_bytes
brace_in_host = refl

port_too_big : load_text (codes "{\"server\":{\"port\":65536}}") ≡ err runtime
unfolding beam_drop.Config.up_to beam_drop.Config.object_at beam_drop.Config.object_text
    beam_drop.Config.string_at beam_drop.Config.load_string_field beam_drop.Config.bool_at
    beam_drop.Config.load_bool_field beam_drop.Config.number_at beam_drop.Config.load_uint16
    beam_drop.Config.load_size beam_drop.Config.load_text beam_drop.Config.format_config
    beam_drop.Text.decimal beam_drop.Text.number_of beam_drop.Text.read_sign
    beam_drop.Text.search_first beam_drop.Text.skip_spaces beam_drop.Text.span beam_drop.Text.stoull
    beam_drop.Text.stoull_value beam_drop.Text.strip beam_drop.Json.field_key
    beam_drop.Json.number_field beam_drop.Json.some_bytes
port_too_big = refl
