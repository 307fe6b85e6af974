-- ===== src/Cli.antt =====
-- src/cli.rs: the commands of the running node.
pub mod PeerInfo
pub mod Pay
pub mod PayLaws
pub mod Channels
pub mod Offer
pub mod Commands
pub mod OfferLaws
pub mod ChannelLaws
pub mod Durability
pub mod Saves
pub mod PeersFile
pub mod PayCommands
pub mod PeerCommands
pub mod LineDurability
pub mod Listing
pub mod ListingFields
pub mod ListingLaws
