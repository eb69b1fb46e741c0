-- ===== src/Assembly.antt =====
-- pipeline/pipeline.go: the methods that make the plugins of a pipeline from its configuration. The
-- plugins are known by the methods that these functions call on them, which are a parameter.
mod Monad
mod Parts
mod Filters
pub mod Stages
pub mod Claims
pub mod Unique
pub mod Loops
pub mod Whole
pub mod Shape
pub mod Made
unfoldable pub use Monad.{pass, lifted, ◌>>=◌, failed, nested, claim, found}
pub use Monad.{
  Kind, keykeeper, lookup_plugin, input, processor, output, filter, parser, serializer, compressor,
  decompressor, BasePlugin, Registry, Aliases, Conf, ◌>>◌, alias_of,
}
unfoldable pub use Parts.{
  with_id, based, prepared, decode_hook, configure_parser, configure_serializer, with_serializer,
  with_parser, configure_callable,
}
pub use Parts.{Plugged, PlugSet, Keepers, Lookups, base_of}
unfoldable pub use Filters.{
  configure_filter, configure_filters, not_filters, one_filter, give_lookup,
}
