-- ===== src/Lib.antt =====
-- A model of ipscry, the LAN scanner, and the theorems that make its core correct.
--
-- The scanner expands a CIDR to addresses, scans them, asks hosts over SNMP, mDNS, LLMNR and other
-- protocols what they are, and shows the answers in a table of hosts that it keeps up to date with
-- pings and rescans. What comes off the wire is parsed by hand-written code on byte slices; what the
-- table shows is a state that several goroutines change under one mutex.
--
-- The files and the code they model:
--   Common       tests, lists and bits over ℕ; Go's panics (Outcome); the parts of package strings
--                that the scanner calls (Text, Trim, Split, Index), on bytes; strconv.Atoi
--                (Atoi); integers (Int), maps (Maps) and sort.Slice (Order)
--   Ber          readTLV, asn1TLV, asn1Len and asn1Int of main.go
--   Snmp         buildSNMPGet, parseSNMPVarbinds and the end of snmpGet, on Ber and Sanitize
--   Dns          dnswire.go: names, queries, packets and records, which mDNS and LLMNR use
--   Sanitize     sanitizeOneLine of main.go
--   Ipv4         expandCIDR, incIP, ipInTarget, isPrivateIPv4, lessIP and the size check of the watch
--                mode in main.go
--   Catalog      portCatalog of main.go, and the ports of the embedded file in dataset.go
--   Macs         macHexDigits and macVendor of dataset.go, validARPMAC and formatMAC of main.go
--   Scan         scanPort and its probes, extractTitle, the second HTTP probe and the collection of
--                results in main.go
--   Args         stripHelpArgs, normalizeScanArgs and parseDiscoveryInput in main.go and discovery.go
--   Enrich       resolveHostnameWithSource, enrichHost and the choice of hosts to show in main.go
--   ArpCache     arpCacheForTarget, mergeARPCacheHosts and arpCacheEntryForIP of main.go
--   DeepProbe    runDeepHTTPProbe of main.go
--   ScanNetwork  scanNetwork of main.go: the survey of the targets, the ARP cache and the hits, the
--                hosts, the second HTTP probe and the order of the result
--   Interfaces   localCIDRs of main.go, ifaceForTarget and discoveryEligible of multicast.go
--   Config       parseScanArgs of main.go with its checks, and the addresses that run scans
--   Csv          the records that writeCSV of main.go writes
--   Display      the tables that printTable and printAIPTable of main.go print
--   Ssdp         the M-SEARCH request and parseSSDPResponse of ssdp.go
--   Packets      the packet handlers of mdns.go, llmnr.go, ssdp.go and wsd.go
--   Lan          runLANDiscovery of discovery.go, with the descriptions of UPnP devices in ssdp.go
--   Upnp         extractXMLTag and parseUPnPDescription in ssdp.go, parseWSDResponse in wsd.go
--   Ports        parsePorts and splitIPChunks of main.go
--   Netbios      the node-status request and parseNBNSName of main.go
--   Smb          the SMB2 requests, their framing, parseNTLMChallenge and utf16LE of main.go
--   Webhook      webhookProgressMonitor of main.go, the events of a scan posted to a URL
--   Stream       stream_json.go, the events of a scan written line by line
--   Monitors     multiScanMonitor, and how scanNetwork reports an open port to its monitor
--   Hosts        hostResult, portResult, arpCacheEntry and discoveryHit
--   Discovery    the merge of discovery hits, and what they give a host, in discovery.go
--   Guess        guessDevice, the ARP state and labels, in main.go
--   Keys         readKey, parseEscape and lineCommand in tui.go
--   Tui          the state of scanTUI in tui.go and the methods that change it
--   Session      the keys, exports, Finish and discoverHostAsync of tui.go, on Tui
--   Examples     tests and concrete runs
--
-- How the code corresponds to the model:
--   - A byte is a ℕ, and a string or a []byte is a list of bytes (Bytes). A theorem that needs
--     each below 256 says so.
--   - A run is a value of Go A: done with a result, panic for an index or a slice out of bounds, or
--     stuck where the rounds that it was given do not suffice. Ends says that a run returns, Safe that
--     it does not panic, and both carry what holds of the result.
--   - A loop whose end the data bounds is structural recursion; the others run on fuel, and a theorem
--     says how much is enough: the number of bytes for parseSNMPVarbinds, 2 ^ 16 + 1 for expandCIDR,
--     which refuses what is larger than a /16, and one more than the bytes of the target info for
--     parseNTLMChallenge. For decodeDNSName no amount is enough on some packets.
--   - A Go int has 64 bits; where the code computes no number that could leave that range, a comment
--     says why and the model uses ℕ.
--   - The net package is not modelled: net.ParseCIDR and net.ParseIP are arguments that hold the
--     parsed address, and the methods of net.IP and net.IPNet that the code calls are written out as
--     documented.
--   - What the network answers is a record of functions (Network in Scan, Lookups in Enrich,
--     Surroundings in ScanNetwork, Answers in Lan), and
--     strings.ToLower on text that need not be ASCII, html.UnescapeString and the records of the
--     embedded CSV files are arguments. The results of goroutines are a list in the order in which
--     they come.
--   - Where goroutines of the table run beside each other (discoverHostAsync), a run is a sequence of
--     steps in any order. Two goroutines that write one map without a lock are not modelled.
--   - A method of the mutex-guarded scanTUI or of a monitor is a function from state to state. What it reads
--     of the clock is an argument, and a map from address to value is an association list.
--
-- Not modelled: sockets, the terminal, Windows system calls, files, HTTP, TLS and JSON, which the
-- program calls and does not define; and drawing, which changes no state, but for the choice of rows in
-- drawHostRows. Of the printed tables, the layout of the columns and the width of a text are outside.
-- arp_windows.go and tools/gendata, which read tables of the system and of a registry, are left out.
pub mod Common
pub mod Ber
pub mod Ipv4
pub mod Dns
pub mod Sanitize
pub mod Snmp
pub mod Ports
pub mod Catalog
pub mod Macs
pub mod Scan
pub mod Args
pub mod Interfaces
pub mod Config
pub mod Enrich
pub mod ArpCache
pub mod DeepProbe
pub mod ScanNetwork
pub mod Csv
pub mod Upnp
pub mod Ssdp
pub mod Packets
pub mod Lan
pub mod Netbios
pub mod Smb
pub mod Webhook
pub mod Stream
pub mod Monitors
pub mod Hosts
pub mod Discovery
pub mod Guess
pub mod Keys
pub mod Display
pub mod Tui
pub mod Session
mod Examples
